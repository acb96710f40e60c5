-- ===== src/Timing/Window.antt =====
-- The well-formed states of `cMeanFrequency`, and the steps that keep them.
use verlihub.Base.{ℕ, ◌+◌, ◌/◌, ◌≤◌, ◌<◌, ◌≡◌, refl, arith, length, length-set, length-replicate}
use verlihub.Run.{Returns}
use verlihub.HashArray.Table.{at-lt}
use verlihub.Timing.{Frequency, reset, shift, shifted, plus}
use verlihub.Timing.Moments.{micros, plus-micros}

-- The times of a window, in microseconds.
pub record Times (f : Frequency) : Type 0 where
  pub over : ℕ
  pub piece : ℕ
  pub finish : ℕ
  pub edge : ℕ
  pub over_is : f.over_period ≡ micros over
  pub piece_is : f.period_part ≡ micros piece
  pub end_is : f.end ≡ micros finish
  pub part_is : f.part ≡ micros edge
  pub share : piece ≡ over / f.resolution
  pub ticks : 0 < piece

-- The indices are those of the first `mResolution` cells.
pub record IsRing (f : Frequency) : Type 0 where
  pub parts : 0 < f.resolution
  pub wide : f.resolution ≤ length f.counts
  pub first : f.start_idx < f.resolution
  pub filled : f.num_fill ≤ f.resolution

pub record IsWindow (f : Frequency) : Type 0 where
  pub times : Times f
  pub ring : IsRing f

-- A step that keeps the setup of a window.
pub record Follows (f g : Frequency) (finish : ℕ) (w : IsWindow f) : Type 0 where
  pub window : IsWindow g
  pub ends : window.times.finish ≡ finish
  pub same_over : window.times.over ≡ w.times.over
  pub same_piece : window.times.piece ≡ w.times.piece
  pub same_parts : g.resolution ≡ f.resolution

module _ (f : Frequency) (w : IsWindow f) where
  pub shift-Follows : Returns (shift f) (λ g. Follows f g (w.times.finish + w.times.piece) w)
  unfolding shift
  shift-Follows = (
    shifted f,
    rw (at-lt f.counts f.start_idx 0 (omega (arith, w.ring.first, w.ring.wide))) refl,
    record {
      window = record {
        times = record {
          over = w.times.over;
          piece = w.times.piece;
          finish = w.times.finish + w.times.piece;
          edge = w.times.edge;
          over_is = w.times.over_is;
          piece_is = w.times.piece_is;
          end_is = rw (w.times.end_is, w.times.piece_is) (plus-micros _ _);
          part_is = w.times.part_is;
          share = w.times.share;
          ticks = w.times.ticks;
        };
        ring = record {
          parts = w.ring.parts;
          wide = rw length-set w.ring.wide;
          first = ground (arith, w.ring.first);
          filled = omega (arith, w.ring.filled);
        };
      };
      ends = refl;
      same_over = refl;
      same_piece = refl;
      same_parts = refl;
    },
  )

  pub reset-Follows : (t : ℕ) → Follows f (reset f (micros t)) (t + w.times.over) w
  unfolding reset
  reset-Follows t = record {
    window = record {
      times = record {
        over = w.times.over;
        piece = w.times.piece;
        finish = t + w.times.over;
        edge = t + w.times.piece;
        over_is = w.times.over_is;
        piece_is = w.times.piece_is;
        end_is = rw w.times.over_is (plus-micros t w.times.over);
        part_is = rw w.times.piece_is (plus-micros t w.times.piece);
        share = w.times.share;
        ticks = w.times.ticks;
      };
      ring = record {
        parts = w.ring.parts;
        wide = rw length-replicate w.ring.wide;
        first = w.ring.parts;
        filled = omega arith;
      };
    };
    ends = refl;
    same_over = refl;
    same_piece = refl;
    same_parts = refl;
  }

  -- One turn of the second loop.
  abbrev pub filled_part : Frequency
  filled_part = record f { part = plus f.part f.period_part; num_fill = f.num_fill + 1 }

  pub filled_part-Follows : f.num_fill < f.resolution → Follows f filled_part w.times.finish w
  filled_part-Follows room = record {
    window = record {
      times = record {
        over = w.times.over;
        piece = w.times.piece;
        finish = w.times.finish;
        edge = w.times.edge + w.times.piece;
        over_is = w.times.over_is;
        piece_is = w.times.piece_is;
        end_is = w.times.end_is;
        part_is = rw (w.times.part_is, w.times.piece_is) (plus-micros _ _);
        share = w.times.share;
        ticks = w.times.ticks;
      };
      ring = record {
        parts = w.ring.parts;
        wide = w.ring.wide;
        first = w.ring.first;
        filled = omega arith;
      };
    };
    ends = refl;
    same_over = refl;
    same_piece = refl;
    same_parts = refl;
  }
