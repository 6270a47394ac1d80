-- ===== src/Action/GuardRules.antt =====
-- Guards: actions that pass and change nothing, or raise and change nothing, by a Boolean test.
use cloglog.Base.{◌≡◌, refl, ◌⊎◌, inl, inr, Bool, true, false, ◌&&◌, subst}
use cloglog.Models.{World}
use cloglog.Action.Defs.{ok, err, Error, Action, ◌>>◌}

-- At `w` the action passes if the test holds, and else raises.
abbrev pub Guards : Action (Unit {0}) → Bool → World → Type 0
Guards m b w = ((b ≡ true) × (m w ≡ (ok tt, w))) ⊎ ((b ≡ false) × (e : Error) × (m w ≡ (err e, w)))

pub Guards-test :
    (m : Action (Unit {0})) {b c : Bool} (w : World) → b ≡ c → Guards m b w → Guards m c w
Guards-test m w e h = subst (λ z. Guards m z w) e h

pub Guards-then :
    (m k : Action (Unit {0})) (b c : Bool) (w : World)
    → Guards m b w
    → Guards k c w
    → Guards (m >> k) (b && c) w
Guards-then m k b c w (inl (e, p)) (inl (e', q)) = inl (rw (e, e') refl, rw p q)
Guards-then m k b c w (inl (e, p)) (inr (e', x, q)) = inr (rw (e, e') refl, x, rw p q)
Guards-then m k b c w (inr (e, x, p)) h = inr (rw e refl, x, rw p refl)
