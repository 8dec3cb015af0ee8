-- ===== src/UniqueFd/Ownership.antt =====
-- src/common/unique_fd.cpp: who owns a descriptor, and which descriptors are closed.
use pulse_core.Base.{
  ℕ, ◌≡◌, ◌≢◌, refl, sym, ap, ◌∙◌, true, Option, none, some, List, [], ◌∷◌, ◌++◌, append-nil, arith,
  ◌==◌, ==→eq, if◌then◌else◌,
}
use pulse_core.UniqueFd.{Handles, put, reset, release, move_assign, same_fd, close_fd}

-- Each descriptor has one owner at most.
abbrev pub IsOwned : Handles → Type 0
IsOwned s = (i j fd : ℕ) → s.fd_of i ≡ some fd → s.fd_of j ≡ some fd → i ≡ j

-- No handle owns the descriptor.
abbrev pub IsFree : Handles → Option ℕ → Type 0
IsFree s fd = (k a : ℕ) → fd ≡ some a → s.fd_of k ≢ some a

close_fd_keeps : (s : Handles) (old : Option ℕ) (k : ℕ) → (close_fd s old).fd_of k ≡ s.fd_of k
unfolding close_fd
close_fd_keeps s none k = refl
close_fd_keeps s (some fd) k = refl

put-IsOwned : (s : Handles) (i : ℕ) (fd : Option ℕ) → IsOwned s → IsFree s fd → IsOwned (put s i fd)
unfolding put
put-IsOwned s i fd v free k l a hk hl =
    let f : (i == k) ≡ true → i ≡ k = λ e. ==→eq i k e in
    let g : (i == l) ≡ true → i ≡ l = λ e. ==→eq i l e in
    ground (arith, v k l a, free l a, free k a, f, g)

-- What `close` is called with.
abbrev pub owned_list : Option ℕ → List ℕ
owned_list none = []
owned_list (some fd) = fd ∷ []

-- The effect of a move assignment from handle `j` to another handle `i`.
pub record Moves (s : Handles) (i j : ℕ) (t : Handles) : Type 0 where
  pub arrives : t.fd_of i ≡ s.fd_of j
  pub leaves : t.fd_of j ≡ none
  pub others : (k : ℕ) → k ≢ i → k ≢ j → t.fd_of k ≡ s.fd_of k
  pub closes : t.closed ≡ s.closed ++ owned_list (s.fd_of i)
  pub owned : IsOwned t

-- The store after the move, by the two descriptors.
abbrev moved : Handles → ℕ → ℕ → Handles
moved s i j = record {
  fd_of = λ k. if i == k then s.fd_of j else if j == k then none else s.fd_of k;
  closed = s.closed ++ owned_list (s.fd_of i);
}

moved-IsOwned : (s : Handles) (i j : ℕ) → IsOwned s → IsOwned (moved s i j)
moved-IsOwned s i j v k l a hk hl =
    let f : (i == k) ≡ true → i ≡ k = λ e. ==→eq i k e in
    let g : (i == l) ≡ true → i ≡ l = λ e. ==→eq i l e in
    ground (arith, v k l a, v j l a, v j k a, f, g)

moved-Moves : (s : Handles) (i j : ℕ) → i ≢ j → IsOwned s → Moves s i j (moved s i j)
moved-Moves s i j other v = record {
  arrives = ground arith;
  leaves = ground arith;
  others = λ k a b. ground arith;
  closes = refl;
  owned = moved-IsOwned s i j v;
}

-- The move, by the descriptors that the two handles hold.
move_assign_by :
    (s : Handles) (i j : ℕ) (a b : Option ℕ)
    → s.fd_of i ≡ a
    → s.fd_of j ≡ b
    → i ≢ j
    → IsOwned s
    → ((k : ℕ) → (move_assign s i j).fd_of k ≡ (moved s i j).fd_of k)
      × ((move_assign s i j).closed ≡ (moved s i j).closed)
unfolding move_assign release reset put close_fd same_fd
move_assign_by s i j none none ea eb other v =
    (λ k. ground (arith, ea, eb, ==→eq i k, ==→eq j k), ground (arith, ea, eb, append-nil s.closed))
move_assign_by s i j none (some y) ea eb other v =
    (λ k. ground (arith, ea, eb), ground (arith, ea, eb, append-nil s.closed))
move_assign_by s i j (some x) none ea eb other v =
    (λ k. ground (arith, ea, eb), ground (arith, ea, eb))
move_assign_by s i j (some x) (some y) ea eb other v =
    let one : x ≡ y → i ≡ j = λ e. v i j x ea (eb ∙ ap some (sym e)) in
    (λ k. ground (arith, ea, eb, one), ground (arith, ea, eb, one))

-- A move assignment from one handle to another gives the descriptor of the source to the target, leaves
-- the source invalid and every other handle as it was, closes the target's former descriptor and no
-- other, and keeps each descriptor with one owner at most, where that was so before.
pub move_assign-Moves :
    (s : Handles) (i j : ℕ) → i ≢ j → IsOwned s → Moves s i j (move_assign s i j)
move_assign-Moves s i j other v =
    let (same, closes) = move_assign_by s i j (s.fd_of i) (s.fd_of j) refl refl other v in
    let x = moved-Moves s i j other v in
    record {
      arrives = same i ∙ x.arrives;
      leaves = same j ∙ x.leaves;
      others = λ k a b. same k ∙ x.others k a b;
      closes = closes;
      owned = λ k l fd hk hl. x.owned k l fd (sym (same k) ∙ hk) (sym (same l) ∙ hl);
    }

reset_closes_by :
    (s : Handles) (i : ℕ) (a fd : Option ℕ)
    → s.fd_of i ≡ a
    → ((reset s i fd).fd_of i ≡ fd)
      × ((reset s i fd).closed
          ≡ (if same_fd (s.fd_of i) fd then s.closed else s.closed ++ owned_list (s.fd_of i)))
unfolding reset put close_fd same_fd
reset_closes_by s i none none e = ground (arith, e)
reset_closes_by s i none (some y) e = ground (arith, e, append-nil s.closed)
reset_closes_by s i (some x) none e = ground (arith, e)
reset_closes_by s i (some x) (some y) e =
    let same : (x == y) ≡ true → x ≡ y = λ h. ==→eq x y h in ground (arith, e, same)

-- `reset` sets the handle's descriptor, and closes the former one, and no other, unless it is the one
-- that is set.
pub reset_closes :
    (s : Handles) (i : ℕ) (fd : Option ℕ)
    → ((reset s i fd).fd_of i ≡ fd)
      × ((reset s i fd).closed
          ≡ (if same_fd (s.fd_of i) fd then s.closed else s.closed ++ owned_list (s.fd_of i)))
reset_closes s i fd = reset_closes_by s i (s.fd_of i) fd refl
