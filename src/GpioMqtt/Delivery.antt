-- ===== src/GpioMqtt/Delivery.antt =====
-- What `write_all` of examples/gpio_mqtt/src/lib.rs puts on a stream when the host takes no more bytes
-- than it is offered.
use cdc_badge_plugins.Base.{
  ℕ, zero, suc, ◌≤◌, ltb, ◌==◌, some, ◌≡◌, ◌≢◌, refl, ap, ◌∙◌, arith, List, [], ◌∷◌, ◌++◌, length,
  take, drop, take-append-drop, length-drop, if-elim, Option-elim, tests,
}
use cdc_badge_plugins.GpioMqtt.Session.{
  Writes, Sent, ok, err, write_failed, panicked, write_loop, write_all,
}
use mathlib.Core.List.{append_assoc}

-- The host takes at most the bytes that it is offered.
abbrev pub IsFair : Writes → Type 0
IsFair writes = (i len n : ℕ) → writes i len ≡ some n → n ≤ len

-- The bytes that went out, the rest of the slice, and the result: nothing is left when it is `ok`.
pub record Delivered (bytes : List ℕ) (out : List ℕ × Sent) : Type 0 where
  pub left : List ℕ
  pub prefix : out.0 ++ left ≡ bytes
  pub all_sent : out.1 ≡ ok → left ≡ []
  pub no_panic : out.1 ≢ panicked

nothing_sent : (s : List ℕ) → Delivered s ([], err write_failed)
nothing_sent s = record { left = s; prefix = refl; all_sent = λ e. cc; no_panic = λ e. cc }

-- A round that took `n` bytes, and the later ones.
part_sent :
    (n : ℕ) (s : List ℕ) (out : List ℕ × Sent)
    → Delivered (drop n s) out
    → Delivered s (take n s ++ out.0, out.1)
part_sent n s out d = record {
  left = d.left;
  prefix =
      append_assoc (take n s) out.0 d.left
      ∙ ap (λ t. take n s ++ t) d.prefix
      ∙ take-append-drop n s;
  all_sent = d.all_sent;
  no_panic = d.no_panic;
}

write_loop-Delivered :
    (rounds : ℕ) (writes : Writes) (i : ℕ) (s : List ℕ)
    → IsFair writes
    → length s ≤ rounds
    → Delivered s (write_loop rounds writes i s)
unfolding write_loop
write_loop-Delivered rounds writes i [] f h = record {
  left = [];
  prefix = refl;
  all_sent = λ e. refl;
  no_panic = λ e. cc;
}
write_loop-Delivered zero writes i (b ∷ s) f h = absurd (omega arith)
write_loop-Delivered (suc rounds) writes i (b ∷ s) f h =
    Option-elim (Delivered (b ∷ s)) (writes i (length (b ∷ s))) _ _ (λ e. nothing_sent (b ∷ s))
      λ n e.
        if-elim (Delivered (b ∷ s)) (n == 0) _ _ (λ z. nothing_sent (b ∷ s))
          λ z.
            if-elim (Delivered (b ∷ s)) (ltb (length (b ∷ s)) n) _ _
              (λ long. absurd (omega (tests, f i (length (b ∷ s)) n e)))
              λ fits. part_sent n (b ∷ s) _ (
                write_loop-Delivered rounds writes (suc i) (drop n (b ∷ s)) f
                  (ground (arith, length-drop n (b ∷ s))))

-- On a stream that takes no more than it is offered, `write_all` never panics, what goes out is a
-- first part of the bytes, and all of them when it reports no error.
pub write_all-Delivered :
    (writes : Writes) (s : List ℕ) → IsFair writes → Delivered s (write_all writes s)
unfolding write_all
write_all-Delivered writes s f = write_loop-Delivered (length s) writes 0 s f (omega arith)
