-- ===== src/Server/Consistent/Outcomes.antt =====
-- What is said of the three outcomes of a method of src/network/epoll_echo_server.cpp.
use pulse_core.Server.Effects.{State, Done, ok, threw, stuck, Action, continue}

-- The method ends, and each way of ending meets its condition.
module _ {W : Type 0} (Q : State → W → Type 0) where
  abbrev pub Meets : {A : Type 0} → (A → State → W → Type 0) → Done W A → Type 0
  Meets P (ok a s w) = P a s w
  Meets P (threw e s w) = Q s w
  Meets P stuck = ⊥

  module _ {A : Type 0} (P : A → State → W → Type 0) where
    pub Meets-continue :
        {B : Type 0} (P' : B → State → W → Type 0) (m : Done W A) (f : A → Action W B)
        → Meets P m
        → ((a : A) (s : State) (w : W) → P a s w → Meets P' (f a s w))
        → Meets P' (continue m f)
    Meets-continue P' (ok a s w) f h next = next a s w h
    Meets-continue P' (threw e s w) f h next = h
    Meets-continue P' stuck f h next = h

    pub Meets-weaken :
        (P' : A → State → W → Type 0) (m : Done W A)
        → ((a : A) (s : State) (w : W) → P a s w → P' a s w)
        → Meets P m
        → Meets P' m
    Meets-weaken P' (ok a s w) weaker h = weaker a s w h
    Meets-weaken P' (threw e s w) weaker h = h
    Meets-weaken P' stuck weaker h = h
