-- ===== src/Timing/Loops.antt =====
-- The loops of `Adjust` end in time, and every operation keeps a window well formed.
use native.Mathlib.Nat.{suc-mul, le-mul_of_pos_right, div-add-mod, mod-lt}
use verlihub.Base.{
  ℕ, zero, suc, ◌+◌, ◌-◌, ◌*◌, ◌%◌, ◌≤◌, ◌≡◌, refl, ap, ◌∙◌, arith, false, ◌&&◌, ltb, inl, inr,
  Bool-cases,
}
use verlihub.Run.{◌>>=◌, Returns}
use verlihub.Timing.{Frequency, reset, shift_until, fill_until, adjust, plus, before}
use verlihub.Timing.Moments.{micros, plus-micros, before-micros}
use verlihub.Timing.Window.{
  IsWindow, shift-Follows, reset-Follows, filled_part, filled_part-Follows,
}

-- The window covers a moment, with the setup that it had.
pub record Covers (f g : Frequency) (t : ℕ) : Type 0 where
  pub window : IsWindow g
  pub reaches : before g.end (micros t) ≡ false
  pub same_parts : g.resolution ≡ f.resolution

before-end :
    (f : Frequency) (w : IsWindow f) (t : ℕ) → before f.end (micros t) ≡ ltb w.times.finish t
before-end f w t = rw w.times.end_is (before-micros w.times.finish t)

shift_until-Covers :
    (n : ℕ) (f : Frequency) (w : IsWindow f) (t : ℕ)
    → t ≤ w.times.finish + n * w.times.piece
    → Returns (shift_until n f (micros t)) (λ g. Covers f g t)
unfolding shift_until
shift_until-Covers zero f w t near =
    let now : before f.end (micros t) ≡ false = before-end f w t ∙ ground arith in
    (f, rw now refl, record { window = w; reaches = now; same_parts = refl })
shift_until-Covers (suc n) f w t near = elim (Bool-cases (before f.end (micros t))) [
  | inl later ↦
      let (g, one, k) = shift-Follows f w in
      let (h, rest, c) =
        shift_until-Covers n g k.window t
          (omega (arith, k.ends, ap (◌*◌ n) k.same_piece, near, suc-mul n w.times.piece)) in
      (
        h,
        rw (later, one, ◌>>=◌) rest,
        record { window = c.window; reaches = c.reaches; same_parts = c.same_parts ∙ k.same_parts },
      )
  | inr now ↦ (f, rw now refl, record { window = w; reaches = now; same_parts = refl })
]

fill_until-Covers :
    (n : ℕ) (f : Frequency) (w : IsWindow f) (t : ℕ)
    → before f.end (micros t) ≡ false
    → f.num_fill + n ≡ f.resolution
    → Returns (fill_until n f (micros t)) (λ g. Covers f g t)
unfolding fill_until
fill_until-Covers zero f w t reaches room =
    let full : (before f.part (micros t) && ltb f.num_fill f.resolution) ≡ false = ground arith in
    (f, rw full refl, record { window = w; reaches = reaches; same_parts = refl })
fill_until-Covers (suc n) f w t reaches room =
    elim (Bool-cases (before f.part (micros t) && ltb f.num_fill f.resolution)) [
      | inl passed ↦
          let k = filled_part-Follows f w (omega (arith, room)) in
          let (g, rest, c) =
            fill_until-Covers n (filled_part f w) k.window t reaches (omega (arith, room)) in
          (
            g,
            rw passed rest,
            record { window = c.window; reaches = c.reaches; same_parts = c.same_parts },
          )
      | inr current ↦
          (f, rw current refl, record { window = w; reaches = reaches; same_parts = refl })
    ]

-- Twice the number of parts is enough turns for a moment that is at most a period late.
enough_turns : (f : Frequency) (w : IsWindow f) → w.times.over ≤ 2 * f.resolution * w.times.piece
enough_turns f w =
    let whole : f.resolution * w.times.piece + w.times.over % f.resolution ≡ w.times.over =
      ap (λ p. f.resolution * p + w.times.over % f.resolution) w.times.share
      ∙ div-add-mod w.times.over f.resolution in
    omega (
      arith,
      whole,
      mod-lt w.times.over w.ring.parts,
      le-mul_of_pos_right f.resolution w.times.ticks,
    )

-- `Adjust` on a well-formed window, whose part is not zero, never leaves its array and ends: its
-- first loop stops after at most twice `mResolution` turns. The window stays well formed and with
-- the same number of parts, and its end is not before the moment it was adjusted to.
pub adjust-Covers :
    (f : Frequency) (t : ℕ) → IsWindow f → Returns (adjust f (micros t)) (λ g. Covers f g t)
unfolding adjust
adjust-Covers f t w =
    let whole_period : before (plus f.end f.over_period) (micros t)
        ≡ ltb (w.times.finish + w.times.over) t =
      ap (λ e. before (plus e f.over_period) (micros t)) w.times.end_is
      ∙ (ap (λ o. before (plus (micros w.times.finish) o) (micros t)) w.times.over_is
          ∙ (ap (λ e. before e (micros t)) (plus-micros w.times.finish w.times.over)
              ∙ before-micros _ t)) in
    elim (Bool-cases (before f.end (micros t))) [
      | inl later ↦ elim (Bool-cases (before (plus f.end f.over_period) (micros t))) [
        | inl long ↦
            let k = reset-Follows f w t in
            (
              reset f (micros t),
              rw (later, long) refl,
              record {
                window = k.window;
                reaches = before-end (reset f (micros t)) k.window t ∙ ground (arith, k.ends);
                same_parts = k.same_parts;
              },
            )
        | inr soon ↦
            let (g, run, c) =
              shift_until-Covers (2 * f.resolution) f w t
                (ground (arith, enough_turns f w, soon, whole_period)) in
            (g, rw (later, soon) run, c)
      ]
      | inr now ↦ elim (Bool-cases (ltb f.num_fill f.resolution)) [
        | inl room ↦
            let (g, run, c) =
              fill_until-Covers (f.resolution - f.num_fill) f w t now
                (omega (arith, w.ring.filled)) in
            (g, rw (now, room) run, c)
        | inr full ↦
            (f, rw (now, full) refl, record { window = w; reaches = now; same_parts = refl })
      ]
    ]
