-- ===== src/Login/Counting.antt =====
-- What the counters of the hub count, and one connection more or less in them.
use verlihub.Base.{
  ℕ, ◌+◌, ◌%◌, ◌<◌, ◌≡◌, refl, sym, ap, subst, ◌∙◌, arith, Bool, true, false, ◌&&◌, Option, none,
  some, List, ◌==◌, length, set, get_or, get_or-set, length-set, get_elem?-lt,
}
use verlihub.Run.{ok, at, or_out_of_range}
use verlihub.HashArray.{inc, dec, word}
use verlihub.Message.Search.{Lacks}
use verlihub.Login.{allowed, valnick, Conn, UserCounts}
use verlihub.Login.Messages.{count_in}

unfoldable pub one_if : Bool → ℕ
one_if true = 1
one_if false = 0

-- The counters `us` of the zones are those of `f`.
pub record IsZones (us : List ℕ) (f : ℕ → ℕ) : Type 0 where
  pub seven : length us ≡ 7
  pub each : (z : ℕ) → z < 7 → get_or us z 0 ≡ f z % word

pub at-counter :
    (us : List ℕ) (f : ℕ → ℕ) (z : ℕ) → IsZones us f → z < 7 → at us z ≡ ok (get_or us z 0)
unfolding at or_out_of_range
at-counter us f z s l = rw (get_elem?-lt us z 0 (ground (arith, s.seven))) refl

pub inc_at-IsZones :
    (us : List ℕ) (f : ℕ → ℕ) (z : ℕ)
    → IsZones us f
    → z < 7
    → IsZones (set us z (inc (get_or us z 0))) (λ y. f y + one_if (z == y))
unfolding one_if
inc_at-IsZones us f z s l = record {
  seven = length-set us z _ ∙ s.seven;
  each = λ y m.
      let here = s.each z l in
      let there = s.each y m in
      rw (get_or-set us z y (inc (get_or us z 0)) 0 (ground (arith, s.seven))) (ground arith);
}

pub dec_at-IsZones :
    (us : List ℕ) (f : ℕ → ℕ) (z : ℕ)
    → IsZones us (λ y. f y + one_if (z == y))
    → z < 7
    → IsZones (set us z (dec (get_or us z 0))) f
unfolding one_if
dec_at-IsZones us f z s l = record {
  seven = length-set us z _ ∙ s.seven;
  each = λ y m.
      let here = s.each z l in
      let there = s.each y m in
      rw (get_or-set us z y (dec (get_or us z 0)) 0 (ground (arith, s.seven))) (ground arith);
}

pub same-IsZones : (us : List ℕ) (f g : ℕ → ℕ) → ((z : ℕ) → f z ≡ g z) → IsZones us f → IsZones us g
same-IsZones us f g same s = record {
  seven = s.seven;
  each = λ z l. s.each z l ∙ ap (λ n. n % word) (same z);
}

-- The hub counts `n` users, and `f z` of them in zone `z`.
pub record IsCount (h : UserCounts) (n : ℕ) (f : ℕ → ℕ) : Type 0 where
  pub total : h.users_total ≡ n % word
  pub zones : IsZones h.users f

pub count_in-IsCount :
    (h : UserCounts) (n : ℕ) (f : ℕ → ℕ) (z : ℕ)
    → IsCount h n f
    → z < 7
    → IsCount (count_in h z (get_or h.users z 0)) (n + 1) (λ y. f y + one_if (z == y))
unfolding count_in
count_in-IsCount h n f z s l = record {
  total = let t = s.total in omega arith;
  zones = inc_at-IsZones h.users f z s.zones l;
}

pub less-IsCount :
    (h : UserCounts) (n : ℕ) (f : ℕ → ℕ) (z : ℕ)
    → IsCount h (n + 1) (λ y. f y + one_if (z == y))
    → z < 7
    → IsCount
        (record {
          users_total = dec h.users_total;
          users = set h.users z (dec (get_or h.users z 0));
        })
        n
        f
less-IsCount h n f z s l = record {
  total = let t = s.total in omega arith;
  zones = dec_at-IsZones h.users f z s.zones l;
}

unfoldable pub is_in_zone : ℕ → Option ℕ → Bool
is_in_zone z none = false
is_in_zone z (some y) = y == z

-- The login is allowed, and in the zone.
unfoldable pub is_counted : Conn → Bool
is_counted c = c.status allowed

unfoldable pub is_counted_in : ℕ → Conn → Bool
is_counted_in z c = c.status allowed && is_in_zone z c.zone

-- Lines are read only from such a connection.
unfoldable pub is_read : Conn → Bool
is_read c = c.is_ok && c.writable

-- The hub counts this connection if it is allowed, and those that `n` and `f` count.
pub record IsTallied (h : UserCounts) (n : ℕ) (f : ℕ → ℕ) (c : Conn) : Type 0 where
  pub counts : IsCount h (n + one_if (is_counted c)) (λ z. f z + one_if (is_counted_in z c))
  pub zoned : c.status allowed ≡ true → (z : ℕ) × (c.zone ≡ some z)
  pub inside : (z : ℕ) → c.zone ≡ some z → z < 7
  pub plain : Lacks b'/' c.lock

-- A user's connection is allowed, and one that is read and allowed has sent its nick.
pub record IsCounted (h : UserCounts) (n : ℕ) (f : ℕ → ℕ) (c : Conn) : Type 0 where
  pub tally : IsTallied h n f c
  pub known : c.has_user ≡ true → c.status allowed ≡ true
  pub entered : is_read c ≡ true → c.status allowed ≡ true → c.status valnick ≡ true

pub same-IsCount :
    (h : UserCounts) (n m : ℕ) (f g : ℕ → ℕ)
    → n ≡ m
    → ((z : ℕ) → f z ≡ g z)
    → IsCount h n f
    → IsCount h m g
same-IsCount h n m f g e same s = record {
  total = s.total ∙ ap (λ k. k % word) e;
  zones = same-IsZones h.users f g same s.zones;
}

-- A connection that agrees on what is counted.
pub same-IsTallied :
    (h : UserCounts) (n : ℕ) (f : ℕ → ℕ) (c d : Conn)
    → d.zone ≡ c.zone
    → d.status allowed ≡ c.status allowed
    → d.lock ≡ c.lock
    → IsTallied h n f c
    → IsTallied h n f d
unfolding is_counted is_counted_in
same-IsTallied h n f c d place same lock s = record {
  counts =
      same-IsCount h _ _ _ _ (ap (λ b. n + one_if b) (sym same))
        (λ z.
          ap (λ b. f z + one_if (b && is_in_zone z c.zone)) (sym same)
          ∙ ap (λ p. f z + one_if (d.status allowed && is_in_zone z p)) (sym place))
        s.counts;
  zoned = λ a. subst (λ p. (z : ℕ) × (p ≡ some z)) (sym place) (s.zoned (sym same ∙ a));
  inside = λ z e. s.inside z (sym place ∙ e);
  plain = subst (Lacks b'/') (sym lock) s.plain;
}

pub same_zone : (z y : ℕ) → some z ≡ some y → z ≡ y
same_zone z y e = cc

-- The zone of an allowed connection.
pub zone_in :
    (h : UserCounts) (n : ℕ) (f : ℕ → ℕ) (c : Conn)
    → c.status allowed ≡ true
    → IsTallied h n f c
    → (z : ℕ) × (c.zone ≡ some z) × (z < 7)
zone_in h n f c here s = let (z, place) = s.zoned here in (z, place, s.inside z place)

pub tally-out :
    (h : UserCounts) (n : ℕ) (f : ℕ → ℕ) (c : Conn)
    → c.status allowed ≡ false
    → IsTallied h n f c
    → IsCount h n f
unfolding is_counted is_counted_in one_if
tally-out h n f c out s =
    same-IsCount h _ n _ f (ap (λ b. n + one_if b) out ∙ (omega arith))
      (λ z. ap (λ b. f z + one_if (b && is_in_zone z c.zone)) out ∙ (omega arith)) s.counts

pub out-tally :
    (h : UserCounts) (n : ℕ) (f : ℕ → ℕ) (c : Conn) (z : ℕ)
    → c.status allowed ≡ false
    → c.zone ≡ some z
    → z < 7
    → Lacks b'/' c.lock
    → IsCount h n f
    → IsTallied h n f c
unfolding is_counted is_counted_in one_if
out-tally h n f c z out place l plain s = record {
  counts =
      same-IsCount h n _ f _ (sym (ap (λ b. n + one_if b) out ∙ (omega arith)))
        (λ y. sym (ap (λ b. f y + one_if (b && is_in_zone y c.zone)) out ∙ (omega arith))) s;
  zoned = λ a. (z, place);
  inside = λ y e. subst (λ x. x < 7) (same_zone z y (sym place ∙ e)) l;
  plain = plain;
}

pub tally-in :
    (h : UserCounts) (n : ℕ) (f : ℕ → ℕ) (c : Conn) (z : ℕ)
    → c.status allowed ≡ true
    → c.zone ≡ some z
    → IsTallied h n f c
    → IsCount h (n + 1) (λ y. f y + one_if (z == y))
unfolding is_counted is_counted_in is_in_zone one_if
tally-in h n f c z here place s =
    same-IsCount h _ _ _ _ (ap (λ b. n + one_if b) here)
      (λ y.
        ap (λ b. f y + one_if (b && is_in_zone y c.zone)) here
        ∙ ap (λ p. f y + one_if (is_in_zone y p)) place)
      s.counts

pub in-tally :
    (h : UserCounts) (n : ℕ) (f : ℕ → ℕ) (c : Conn) (z : ℕ)
    → c.status allowed ≡ true
    → c.zone ≡ some z
    → z < 7
    → Lacks b'/' c.lock
    → IsCount h (n + 1) (λ y. f y + one_if (z == y))
    → IsTallied h n f c
unfolding is_counted is_counted_in is_in_zone one_if
in-tally h n f c z here place l plain s = record {
  counts =
      same-IsCount h _ _ _ _ (sym (ap (λ b. n + one_if b) here))
        (λ y. sym (
          ap (λ b. f y + one_if (b && is_in_zone y c.zone)) here
          ∙ ap (λ p. f y + one_if (is_in_zone y p)) place))
        s;
  zoned = λ a. (z, place);
  inside = λ y e. subst (λ x. x < 7) (same_zone z y (sym place ∙ e)) l;
  plain = plain;
}
