-- ===== src/Registry/Issue.antt =====
-- The identifiers that a registry gives out over any history of calls.
use pulse_core.Base.{ℕ, ◌≤◌, ◌<◌, ◌≡◌, refl, sym, subst, Option, none, some, List, [], ◌∷◌, arith}
use pulse_core.Sockets.{Errno}
use pulse_core.Connection.{ConnectionLimits}
use pulse_core.Registry.{
  Registry, new_registry, Added, added, invalid_fd, id_space_exhausted, duplicate_id,
  not_non_blocking, add, remove,
}
use pulse_core.Registry.Identity.{
  IsRegistry, new_registry-IsRegistry, add-IsRegistry, add-IsAdded, remove-IsRegistry,
}

pub data Call : Type 0 where
  adds : Option ℕ → Option Errno → Call
  removes : ℕ → Call

-- The identifiers that `Add` has returned, newest first.
note : List ℕ → Added → List ℕ
note issued (added id) = id ∷ issued
note issued _ = issued

pub perform : Registry × List ℕ → Call → Registry × List ℕ
unfolding note
perform (r, issued) (adds fd nb) = ((add r fd nb).1, note issued (add r fd nb).0)
perform (r, issued) (removes id) = ((remove r id).1, issued)

pub perform_all : Registry × List ℕ → List Call → Registry × List ℕ
perform_all s [] = s
perform_all s (c ∷ cs) = perform_all (perform s c) cs

-- Positive, and strictly falling from below `bound`: so no two are the same.
abbrev pub Falling : ℕ → List ℕ → Type 0
Falling bound [] = Unit {0}
Falling bound (id ∷ ids) = (0 < id) × (id < bound) × Falling id ids

Falling-mono : (m n : ℕ) (ids : List ℕ) → m ≤ n → Falling m ids → Falling n ids
Falling-mono m n [] h f = tt
Falling-mono m n (id ∷ ids) h f = (f.0, omega (arith, f.1), f.2)

-- The registry is well formed, and the identifiers given out, latest first, fall.
abbrev pub Issues : Registry × List ℕ → Type 0
Issues s = IsRegistry s.0 × Falling s.0.next_id s.1

note-Falling :
    (r : Registry) (issued : List ℕ) (fd : ℕ) (nb : Option Errno) (a : Added)
    → IsRegistry r
    → Falling r.next_id issued
    → (add r (some fd) nb).0 ≡ a
    → r.next_id ≤ (add r (some fd) nb).1.next_id
    → Falling (add r (some fd) nb).1.next_id (note issued a)
unfolding note
note-Falling r issued fd nb (added id) v f e le =
    let x = add-IsAdded r fd id nb v e in
    (
      omega (arith, x.next, v.first),
      omega (arith, x.next, x.counts),
      subst (λ i. Falling i issued) (sym x.next) f,
    )
note-Falling r issued fd nb invalid_fd v f e le = Falling-mono _ _ issued le f
note-Falling r issued fd nb id_space_exhausted v f e le = Falling-mono _ _ issued le f
note-Falling r issued fd nb duplicate_id v f e le = Falling-mono _ _ issued le f
note-Falling r issued fd nb (not_non_blocking x) v f e le = Falling-mono _ _ issued le f

next_id-add :
    (r : Registry) (fd : ℕ) (nb : Option Errno) → r.next_id ≤ (add r (some fd) nb).1.next_id
unfolding add
next_id-add r fd none = ground arith
next_id-add r fd (some e) = ground arith

perform-Issues : (s : Registry × List ℕ) (c : Call) → Issues s → Issues (perform s c)
unfolding perform
perform-Issues (r, issued) (adds none nb) (v, f) = (add-IsRegistry r none nb v, unfold add in f)
perform-Issues (r, issued) (adds (some fd) nb) (v, f) =
    (add-IsRegistry r (some fd) nb v, note-Falling r issued fd nb _ v f refl (next_id-add r fd nb))
perform-Issues (r, issued) (removes id) (v, f) = (remove-IsRegistry r id v, unfold remove in f)

perform_all-Issues : (s : Registry × List ℕ) (cs : List Call) → Issues s → Issues (perform_all s cs)
unfolding perform_all
perform_all-Issues s [] v = v
perform_all-Issues s (c ∷ cs) v = perform_all-Issues (perform s c) cs (perform-Issues s c v)

-- Whatever is added to a new registry and removed from it, successful or not, no identifier is
-- given out twice, none is 0, and the registry stays well formed.
pub identifiers_unique :
    (limits : ConnectionLimits) (cs : List Call) → Issues (perform_all (new_registry limits, []) cs)
identifiers_unique limits cs = perform_all-Issues _ cs (new_registry-IsRegistry limits, tt)
