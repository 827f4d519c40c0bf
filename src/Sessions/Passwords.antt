-- ===== src/Sessions/Passwords.antt =====
-- What the login screen's requests do, with and without the right password.
use redfog.Base.{ℕ, ◌≡◌, ◌≢◌, refl, true, Option, []}
use redfog.Base.Text.{Text}
use redfog.Sessions.Report.{
  SessionConfig, UserSessionConfig, SessionManager, BrokerReply, unreachable, unexpected, refused,
  replied, Reported, err, ReportError, check_password, handle_login_report,
}
use redfog.Sessions.LogOut.{log_out_with, handle_log_out}

-- The request failed and left the state as it was.
abbrev pub Refused :
    {Key Ip : Type 0} → SessionManager Key Ip → SessionManager Key Ip → Reported (Unit {0}) → Type 0
Refused m m' result = (e : ReportError) × (m' ≡ m) × (result ≡ err e)

not_replied :
    (config : SessionConfig) (username : Text) (reply : BrokerReply (Unit {0}))
    → config.has_broker ≡ true
    → reply ≢ replied tt
    → (e : ReportError) × (check_password config username reply ≡ err e)
unfolding check_password
not_replied config username unreachable b h = rw b (_, refl)
not_replied config username unexpected b h = rw b (_, refl)
not_replied config username (refused e) b h = rw b (_, refl)
not_replied config username (replied tt) b h = absurd (h refl)

module _ {Key Ip : Type 0} (key_dec : Discrete Key) where
  -- With a broker that did not confirm the password, for whatever reason, neither a login report nor a log
  -- out changes anything: both answer with an error, and a log out asks no one to end a session.
  pub no_request_without_password :
      (config : SessionConfig) (m : SessionManager Key Ip) (username password session_name : Text)
      (generation : ℕ) (reply : BrokerReply (Unit {0}))
      (custom : BrokerReply (Option UserSessionConfig))
      → config.has_broker ≡ true
      → reply ≢ replied tt
      → let (reported, result) =
          handle_login_report config m username password session_name generation reply custom in
        let (left, answer, effects) = handle_log_out key_dec config m username reply in
        Refused m reported result × Refused m left answer × (effects ≡ [])
  unfolding handle_login_report handle_log_out log_out_with
  no_request_without_password config m username password name generation reply custom b h =
      let (e, failed) = not_replied config username reply b h in
      (
        rw (failed, handle_login_report) (e, refl, refl),
        rw (failed, handle_log_out, log_out_with) (e, refl, refl),
        rw (failed, handle_log_out, log_out_with) refl,
      )
