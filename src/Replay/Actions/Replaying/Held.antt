-- ===== src/Replay/Actions/Replaying/Held.antt =====
-- What a list of events holds, and the collectors of a profile.
use substate_cli.Prelude.{
  ℕ, zero, suc, ◌≡◌, refl, Bool, true, false, ◌&&◌, Option, none, some, List, [], ◌∷◌, ◌++◌, arith,
  ◌==◌, nat_eq, if◌then◌else◌,
}
use substate_cli.Replay.Actions.Replaying.{
  ReplayConfig, Profile, micro, basic_block, Resource, collector, substate_db, cpu_profile, Event,
  acquire, release, execute, start_collectors, stop_collectors,
}

abbrev pub same_profile : Profile → Profile → Bool
same_profile micro micro = true
same_profile basic_block basic_block = true
same_profile _ _ = false

abbrev pub same_resource : Resource → Resource → Bool
same_resource (collector p i) (collector q j) = same_profile p q && i == j
same_resource substate_db substate_db = true
same_resource cpu_profile cpu_profile = true
same_resource _ _ = false

-- Whether a resource is held after an event; `none` if it is taken twice, or given back when it is
-- not held.
abbrev pub holds : Resource → Event → Option Bool → Option Bool
holds r e none = none
holds r (acquire s) (some b) = if same_resource s r then (if b then none else some true) else some b
holds r (release s) (some b) =
    if same_resource s r then (if b then some false else none) else some b
holds r _ (some b) = some b

abbrev pub held : Resource → List Event → Option Bool → Option Bool
held r [] o = o
held r (e ∷ es) o = held r es (holds r e o)

-- The runs of the pool.
abbrev pub executions : List Event → List (ReplayConfig × ℕ × ℕ)
executions [] = []
executions (execute config first last ∷ es) = (config, first, last) ∷ executions es
executions (_ ∷ es) = executions es

pub held-append :
    (r : Resource) (es fs : List Event) (o : Option Bool)
    → held r (es ++ fs) o ≡ held r fs (held r es o)
held-append r [] fs o = refl
held-append r (e ∷ es) fs o = held-append r es fs (holds r e o)

pub executions-append :
    (es fs : List Event) → executions (es ++ fs) ≡ executions es ++ executions fs
executions-append [] fs = refl
executions-append (e ∷ es) fs = ground (arith, executions-append es fs)

-- A collector is held after the start of its profile's, and not after their end.
pub collector-cycle :
    (p : Profile) (i : ℕ)
    → (b : Bool) × (held (collector p i) (start_collectors true p) (some false) ≡ some b)
      × (held (collector p i) (stop_collectors true p) (some b) ≡ some false)
unfolding start_collectors stop_collectors
collector-cycle micro zero = (true, refl, refl)
collector-cycle micro (suc zero) = (true, refl, refl)
collector-cycle micro (suc (suc zero)) = (true, refl, refl)
collector-cycle micro (suc (suc (suc zero))) = (true, refl, refl)
collector-cycle micro (suc (suc (suc (suc zero)))) = (true, refl, refl)
collector-cycle micro (suc (suc (suc (suc (suc i))))) = (false, ground arith, ground arith)
collector-cycle basic_block zero = (true, refl, refl)
collector-cycle basic_block (suc zero) = (true, refl, refl)
collector-cycle basic_block (suc (suc zero)) = (true, refl, refl)
collector-cycle basic_block (suc (suc (suc zero))) = (true, refl, refl)
collector-cycle basic_block (suc (suc (suc (suc zero)))) = (true, refl, refl)
collector-cycle basic_block (suc (suc (suc (suc (suc i))))) = (false, ground arith, ground arith)

pub collectors-cycle :
    (wanted : Bool) (p : Profile) (i : ℕ)
    → (b : Bool) × (held (collector p i) (start_collectors wanted p) (some false) ≡ some b)
      × (held (collector p i) (stop_collectors wanted p) (some b) ≡ some false)
unfolding start_collectors stop_collectors
collectors-cycle false p i = (false, refl, refl)
collectors-cycle true p i = collector-cycle p i

abbrev pub concerns : Profile → Resource → Bool
concerns p (collector q i) = same_profile p q
concerns p substate_db = false
concerns p cpu_profile = false

-- The collectors of one profile leave the other resources.
pub others_kept :
    (wanted : Bool) (p : Profile) (r : Resource) (b : Bool)
    → concerns p r ≡ false
    → (held r (start_collectors wanted p) (some b) ≡ some b)
      × (held r (stop_collectors wanted p) (some b) ≡ some b)
unfolding start_collectors stop_collectors
others_kept false p r b h = (refl, refl)
others_kept true micro (collector micro i) b h = absurd cc
others_kept true micro (collector basic_block i) b h = (refl, refl)
others_kept true basic_block (collector micro i) b h = (refl, refl)
others_kept true basic_block (collector basic_block i) b h = absurd cc
others_kept true p substate_db b h = (refl, refl)
others_kept true p cpu_profile b h = (refl, refl)
