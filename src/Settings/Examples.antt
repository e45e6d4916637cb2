-- ===== src/Settings/Examples.antt =====
-- A settings session that begins, is used and is replaced.
use syllva.Prelude.{Text, codes, some, true, false, ◌≡◌, refl, teq}
use syllva.Settings.{SessionSecurity, new_security, consume_bootstrap, replace, validate_csrf}
use syllva.Settings.Epochs.{Reach, replaces, OnlySession, consume_bootstrap-OnlySession}

abbrev id : Text → Text
id t = t

abbrev issued : SessionSecurity
issued = new_security id 0 900 (codes "tok")

abbrev opened : SessionSecurity
opened = (consume_bootstrap id 5 6 (codes "tok") (codes "handle") (codes "csrf") issued).0

opens :
    (consume_bootstrap id 5 6 (codes "tok") (codes "handle") (codes "csrf") issued).1
    ≡ some (codes "handle")
unfolding consume_bootstrap new_security teq
opens = refl

accepts : validate_csrf id 7 (some (codes "handle")) (some (codes "csrf")) opened ≡ true
unfolding validate_csrf consume_bootstrap new_security teq
accepts = refl

goes_idle : validate_csrf id 906 (some (codes "handle")) (some (codes "csrf")) opened ≡ false
unfolding validate_csrf consume_bootstrap new_security teq
goes_idle = refl

consume_bootstrap-OnlySession_example :
    OnlySession id 1 (codes "handle") (codes "csrf") (replace opened)
unfolding new_security
consume_bootstrap-OnlySession_example =
    consume_bootstrap-OnlySession id 5 6 (codes "tok") (codes "handle") (codes "csrf")
      (codes "handle") issued (replace opened) opens (Reach.next Reach.here replaces)
