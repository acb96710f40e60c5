-- ===== src/Login/Others.antt =====
-- The handlers of $Version and $MyHubURL, and the end of a connection, keep the counters right.
use verlihub.Base.{ℕ, ◌≡◌, refl, ◌||◌, not, Bool-cases, set, get_or, inl, inr}
use verlihub.Run.{or_out_of_range, Returns}
use verlihub.HashArray.{dec}
use verlihub.Login.{
  bit, allowed, version, myhuburl, Conn, UserCounts, Decision, set_ls_flag, get_ls_flag, close_now,
  conn_close_msg, uncount,
}
use verlihub.Login.Messages.{dc_version, dc_my_hub_url, check_user_login}
use verlihub.Login.Counting.{
  at-counter, IsCount, less-IsCount, IsTallied, IsCounted, tally-out, tally-in, zone_in,
}
use verlihub.Login.Steps.{close_now-IsCounted, close_nice-IsCounted, set_ls_flag-IsCounted}
use verlihub.Login.Handlers.{close_nice-status}

pub dc_version-IsCounted :
    (d : Decision) (h : UserCounts) (n : ℕ) (f : ℕ → ℕ) (c : Conn)
    → IsCounted h n f c
    → IsCounted h n f (dc_version d c)
unfolding dc_version conn_close_msg bit
dc_version-IsCounted d h n f c s =
    elim (Bool-cases
      (check_user_login c || get_ls_flag version c || d.len_fails || d.syntax_fails)) [
        | inl bad ↦ rw bad (close_nice-IsCounted h n f c d.pending 1000 s.tally s.known)
        | inr fine ↦ elim (Bool-cases d.plugins_agree) [
          | inl agree ↦ rw (fine, agree) (set_ls_flag-IsCounted h n f c version refl s)
          | inr refuse ↦ rw (fine, refuse) (close_now-IsCounted h n f c s.tally s.known)
        ]
      ]

pub dc_my_hub_url-IsCounted :
    (d : Decision) (h : UserCounts) (n : ℕ) (f : ℕ → ℕ) (c : Conn)
    → IsCounted h n f c
    → IsCounted h n f (dc_my_hub_url d c)
unfolding dc_my_hub_url conn_close_msg bit
dc_my_hub_url-IsCounted d h n f c s =
    elim (Bool-cases (
      check_user_login c
      || not d.sees_hub_url
      || get_ls_flag myhuburl c
      || d.len_fails
      || d.syntax_fails)) [
        | inl bad ↦ rw bad (close_nice-IsCounted h n f c d.pending 1000 s.tally s.known)
        | inr fine ↦ elim (Bool-cases d.plugins_agree) [
          | inl agree ↦ rw (fine, agree) (set_ls_flag-IsCounted h n f c myhuburl refl s)
          | inr refuse ↦ rw (fine, refuse) (close_now-IsCounted h n f c s.tally s.known)
        ]
      ]

pub uncount-IsCount :
    (h : UserCounts) (n : ℕ) (f : ℕ → ℕ) (c : Conn)
    → IsTallied h n f c
    → Returns (uncount h c) (λ h'. IsCount h' n f)
unfolding uncount or_out_of_range get_ls_flag
uncount-IsCount h n f c s = elim (Bool-cases (c.status allowed)) [
  | inr out ↦ (h, rw out refl, tally-out h n f c out s)
  | inl here ↦
      let (z, place, l) = zone_in h n f c here s in
      let all = tally-in h n f c z here place s in
      (
        record {
          users_total = dec h.users_total;
          users = set h.users z (dec (get_or h.users z 0));
        },
        rw (here, place, at-counter h.users _ z all.zones l) refl,
        less-IsCount h n f z all l,
      )
]

pub dc_version-status :
    (d : Decision) (c : Conn) → (dc_version d c).status allowed ≡ c.status allowed
unfolding dc_version conn_close_msg set_ls_flag bit close_now
dc_version-status d c =
    elim (Bool-cases
      (check_user_login c || get_ls_flag version c || d.len_fails || d.syntax_fails)) [
        | inl bad ↦ rw bad (close_nice-status d.pending 1000 c)
        | inr fine ↦ elim (Bool-cases d.plugins_agree) [
          | inl agree ↦ rw (fine, agree) refl
          | inr refuse ↦ rw (fine, refuse) refl
        ]
      ]

pub dc_my_hub_url-status :
    (d : Decision) (c : Conn) → (dc_my_hub_url d c).status allowed ≡ c.status allowed
unfolding dc_my_hub_url conn_close_msg set_ls_flag bit close_now
dc_my_hub_url-status d c =
    elim (Bool-cases (
      check_user_login c
      || not d.sees_hub_url
      || get_ls_flag myhuburl c
      || d.len_fails
      || d.syntax_fails)) [
        | inl bad ↦ rw bad (close_nice-status d.pending 1000 c)
        | inr fine ↦ elim (Bool-cases d.plugins_agree) [
          | inl agree ↦ rw (fine, agree) refl
          | inr refuse ↦ rw (fine, refuse) refl
        ]
      ]
