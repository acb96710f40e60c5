-- ===== src/Login/Focus.antt =====
-- One connection among the others.
use verlihub.Base.{
  ℕ, zero, suc, ◌+◌, ◌<◌, ◌≡◌, refl, sym, ap, arith, Bool, true, some, List, [], ◌∷◌, set,
  get_elem?, subst,
}
use verlihub.Message.Search.{Lacks}
use verlihub.Login.{allowed, valnick, Conn, UserCounts}
use verlihub.Login.Counting.{
  one_if, IsCount, same-IsCount, is_counted, is_counted_in, is_read, IsCounted,
}
use verlihub.Login.World.{World, remove_at, put_back}

-- How many connections satisfy the test.
unfoldable pub tally : (Conn → Bool) → List Conn → ℕ
tally p [] = 0
tally p (c ∷ cs) = tally p cs + one_if (p c)

-- What holds of each connection.
pub record IsFit (c : Conn) : Type 0 where
  pub zoned : c.status allowed ≡ true → (z : ℕ) × (c.zone ≡ some z)
  pub inside : (z : ℕ) → c.zone ≡ some z → z < 7
  pub plain : Lacks b'/' c.lock
  pub known : c.has_user ≡ true → c.status allowed ≡ true
  pub entered : is_read c ≡ true → c.status allowed ≡ true → c.status valnick ≡ true

pub IsCounted-IsFit :
    {h : UserCounts} {n : ℕ} {f : ℕ → ℕ} {c : Conn} (s : IsCounted h n f c) → IsFit c
IsCounted-IsFit s = record {
  zoned = s.tally.zoned;
  inside = s.tally.inside;
  plain = s.tally.plain;
  known = s.known;
  entered = s.entered;
}

unfoldable pub AllFit : List Conn → Type 0
AllFit [] = Unit
AllFit (c ∷ cs) = IsFit c × AllFit cs

pub tally-remove_at :
    (p : Conn → Bool) (cs : List Conn) (i : ℕ) (c : Conn)
    → get_elem? cs i ≡ some c
    → tally p cs ≡ tally p (remove_at cs i) + one_if (p c)
unfolding tally remove_at get_elem?
tally-remove_at p [] i c e = absurd (cc)
tally-remove_at p (d ∷ cs) zero c e =
    let same : d ≡ c = cc in ap (λ x. tally p cs + one_if (p x)) same
tally-remove_at p (d ∷ cs) (suc i) c e = omega (arith, tally-remove_at p cs i c e)

pub tally-set :
    (p : Conn → Bool) (cs : List Conn) (i : ℕ) (c d : Conn)
    → get_elem? cs i ≡ some c
    → tally p (set cs i d) ≡ tally p (remove_at cs i) + one_if (p d)
unfolding tally remove_at get_elem? set
tally-set p [] i c d e = absurd (cc)
tally-set p (b ∷ cs) zero c d e = refl
tally-set p (b ∷ cs) (suc i) c d e = omega (arith, tally-set p cs i c d e)

AllFit-get : (cs : List Conn) (i : ℕ) (c : Conn) → get_elem? cs i ≡ some c → AllFit cs → IsFit c
unfolding get_elem? AllFit
AllFit-get [] i c e all = absurd (cc)
AllFit-get (d ∷ cs) zero c e all = let same : d ≡ c = cc in subst IsFit same all.0
AllFit-get (d ∷ cs) (suc i) c e all = AllFit-get cs i c e all.1

AllFit-set : (cs : List Conn) (i : ℕ) (d : Conn) → IsFit d → AllFit cs → AllFit (set cs i d)
unfolding set AllFit
AllFit-set [] i d fit all = all
AllFit-set (c ∷ cs) zero d fit all = (fit, all.1)
AllFit-set (c ∷ cs) (suc i) d fit all = (all.0, AllFit-set cs i d fit all.1)

pub AllFit-remove_at : (cs : List Conn) (i : ℕ) → AllFit cs → AllFit (remove_at cs i)
unfolding remove_at AllFit
AllFit-remove_at [] i all = all
AllFit-remove_at (c ∷ cs) zero all = all.1
AllFit-remove_at (c ∷ cs) (suc i) all = (all.0, AllFit-remove_at cs i all.1)

-- The hub counts the allowed connections, those of each zone too, and all connections are fit.
pub record IsWorld (w : World) : Type 0 where
  pub counts : IsCount w.hub (tally is_counted w.conns) (λ z. tally (is_counted_in z) w.conns)
  pub fits : AllFit w.conns

-- One connection, and the others.
pub focus :
    (w : World) (i : ℕ) (c : Conn)
    → get_elem? w.conns i ≡ some c
    → IsWorld w
    → IsCounted w.hub
        (tally is_counted (remove_at w.conns i))
        (λ z. tally (is_counted_in z) (remove_at w.conns i))
        c
focus w i c e s =
    let fit = AllFit-get w.conns i c e s.fits in
    record {
      tally = record {
        counts =
            same-IsCount w.hub _ _ _ _ (tally-remove_at is_counted w.conns i c e)
              (λ z. tally-remove_at (is_counted_in z) w.conns i c e) s.counts;
        zoned = fit.zoned;
        inside = fit.inside;
        plain = fit.plain;
      };
      known = fit.known;
      entered = fit.entered;
    }

pub put_back-IsWorld :
    (w : World) (i : ℕ) (c : Conn) (r : UserCounts × Conn)
    → get_elem? w.conns i ≡ some c
    → AllFit w.conns
    → IsCounted r.0
        (tally is_counted (remove_at w.conns i))
        (λ z. tally (is_counted_in z) (remove_at w.conns i))
        r.1
    → IsWorld (put_back w.conns i r)
unfolding put_back
put_back-IsWorld w i c r e all s = record {
  counts =
      same-IsCount r.0 _ _ _ _ (sym (tally-set is_counted w.conns i c r.1 e))
        (λ z. sym (tally-set (is_counted_in z) w.conns i c r.1 e)) s.tally.counts;
  fits = AllFit-set w.conns i r.1 (IsCounted-IsFit s) all;
}
