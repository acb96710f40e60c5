-- ===== src/Login/Keys.antt =====
-- Which keys the handler of $Key takes.
use verlihub.Base.{
  ◌≡◌, refl, ap, Bool, Bool-cases, inl, inr, true, false, ◌&&◌, ◌||◌, not, leb, [], ◌∷◌, ◌==◌,
  ◌==ᵇ◌, take, length, starts_with, Bytes,
}
use verlihub.Run.{ok, Returns}
use verlihub.Escapes.{lock_to_key}
use verlihub.Login.{
  Conn, Config, Decision, keyok, bit, get_ls_flag, set_ls_flag, conn_close_msg, close_nice,
  close_now,
}
use verlihub.Login.Messages.{is_key_of, dc_key}

take-starts_with : (par key : Bytes) → (take (length par) key ==ᵇ par) ≡ starts_with par key
unfolding take ◌==ᵇ◌ starts_with
take-starts_with [] key = refl
take-starts_with (p ∷ par) [] = refl
take-starts_with (p ∷ par) (k ∷ key) = ap (λ b. (k == p) && b) (take-starts_with par key)

close-keyok : (pending : Bool) (c : Conn) → (conn_close_msg pending c).status keyok ≡ c.status keyok
unfolding conn_close_msg close_nice close_now
close-keyok pending c = elim (Bool-cases (leb 1000 0 || not pending)) [
  | inl now ↦ rw now refl
  | inr later ↦ rw later refl
]

-- A connection that sent no key yet, a $Key without a syntax error, and a configuration that drops
-- invalid keys: DC_Key sets the flag exactly if what was sent is a beginning of the key of the lock,
-- so also if nothing was sent.
pub dc_key-starts_with :
    (geo_cc : Bytes → Bytes) (conf : Config) (d : Decision) (par key : Bytes) (c : Conn)
    → conf.drop_invalid_key ≡ true
    → get_ls_flag keyok c ≡ false
    → d.syntax_fails ≡ false
    → lock_to_key c.lock ≡ ok key
    → Returns (dc_key geo_cc conf d par c) (λ e. get_ls_flag keyok e ≡ starts_with par key)
unfolding dc_key is_key_of get_ls_flag set_ls_flag bit
dc_key-starts_with geo_cc conf d par key c strict first plain found =
    let same = take-starts_with par key in
    elim (Bool-cases (take (length par) key ==ᵇ par)) [
      | inl right ↦ (
        record (set_ls_flag keyok c) { lock = [] },
        rw (first, plain, strict, found, right) refl,
        cc,
      )
      | inr wrong ↦ (
        conn_close_msg d.pending c,
        rw (first, plain, strict, found, wrong) refl,
        (let closed = close-keyok d.pending c in cc),
      )
    ]
