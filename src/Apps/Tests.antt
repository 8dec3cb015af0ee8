-- ===== src/Apps/Tests.antt =====
-- Concrete command lines.
use pulse_core.Base.{◌-◌, ◌^◌, ◌≡◌, refl, [], ◌∷◌}
use pulse_core.Apps.{text, refused, value, stoul, number}
use pulse_core.Apps.Numbers.{Gives}
use pulse_core.Apps.EpollServer.{parse_positive_size, parse_args}
use pulse_core.Apps.EpollServer.Config.{IsAccepted, parse_args-IsAccepted}
use pulse_core.Apps.Client.{parse_client_args}
use pulse_core.Apps.Client.Request.{IsReady, parse_client_args-IsReady}

parse_args-IsAccepted_example :
    Gives IsAccepted (parse_args (text "9001" ∷ text "--workers" ∷ text "4" ∷ []))
parse_args-IsAccepted_example =
    parse_args-IsAccepted (text "9001" ∷ text "--workers" ∷ text "4" ∷ [])

parse_client_args-IsReady_example :
    Gives IsReady
      (parse_client_args (text "9001" ∷ text "--message-type" ∷ text "work" ∷ text "seed" ∷ []))
parse_client_args-IsReady_example =
    parse_client_args-IsReady (text "9001" ∷ text "--message-type" ∷ text "work" ∷ text "seed" ∷ [])

-- A size with a plus sign.
stoul_plus : stoul (text " +42x") ≡ number 42 4
unfolding stoul text
stoul_plus = refl

-- The guard sees the space, and the number wraps around.
minus_accepted : parse_positive_size (text "--workers") (text " -5") ≡ value (2 ^ 64 - 5)
unfolding parse_positive_size text stoul refused
minus_accepted = refl
