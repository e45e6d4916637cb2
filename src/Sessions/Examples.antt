-- ===== src/Sessions/Examples.antt =====
-- Runs of the session store, with a text's own characters as its hash.
use syllva.Prelude.{Text, codes, false, ◌≢◌, ◌-◌, ◌≡◌, ◌↔◌, refl, none, some, teq, true, leb}
use syllva.Prelude.Dict.{lookup, insert, remove, keep_values, keys_where}
use syllva.Sessions.{
  Session, SessionStore, found, new_store, issue_bootstrap, exchange, find, alive, end_window,
  prune, fresh_session, idle_ttl,
}
use syllva.Sessions.Invariant.{Inv, issues, exchanges, Reach, sessions-Inv}
use syllva.Sessions.Tokens.{Later, exchange-single_use}
use syllva.Sessions.Bootstraps.{Opens, exchange-Opens}
use syllva.Sessions.Windows.{
  alive-find, exchange-replaces, end_window-ends, find-refreshes, IsFound,
}

abbrev id : Text → Text
id t = t

abbrev issued : SessionStore
issued = issue_bootstrap id 5 5 (codes "tok") (codes "main") new_store

abbrev opened : SessionStore
opened = (exchange id 9 9 9 (codes "sid") (codes "csrf") (codes "tok") none issued).0

issued-Reach : Reach id issued
issued-Reach = Reach.next Reach.here (issues 5 5 (codes "tok") (codes "main"))

no_session : lookup (codes "sid") issued.sessions ≡ none
unfolding issue_bootstrap lookup insert keep_values keys_where prune teq
no_session = refl

opened-Reach : Reach id opened
opened-Reach =
    Reach.next issued-Reach
      (exchanges 9 9 9 (codes "sid") (codes "csrf") (codes "tok") none no_session)

sessions-Inv_example : Inv id opened
sessions-Inv_example = sessions-Inv id opened-Reach

exchange_opens :
    (exchange id 9 9 9 (codes "sid") (codes "csrf") (codes "tok") none issued).1
    ≡ some (fresh_session 9 (codes "sid") (codes "csrf") (codes "main"))
unfolding exchange issue_bootstrap lookup insert remove keep_values keys_where prune teq
exchange_opens = refl

exchange-single_use_example :
    (exchange id 10 10 10 (codes "other") (codes "x") (codes "tok") none opened).1 ≡ none
exchange-single_use_example =
    exchange-single_use id 116 (codes "ok") 9 9 9 (codes "sid") (codes "csrf") none issued opened
      Later.here 10 10 10 (codes "other") (codes "x") none

exchange-replaces_example :
    let t = opened in
    (lookup (codes "sid") t.sessions
      ≡ some (fresh_session 9 (codes "sid") (codes "csrf") (codes "main")))
    × ((k : Text) (y : Session)
        → lookup k t.sessions ≡ some y
        → y.window_label ≡ codes "main"
        → k ≡ codes "sid")
exchange-replaces_example =
    exchange-replaces id 9 9 9 (codes "sid") (codes "csrf") (codes "tok") none issued
      (fresh_session 9 (codes "sid") (codes "csrf") (codes "main")) (sessions-Inv id issued-Reach)
      no_session exchange_opens

end_window-ends_example :
    ((k : Text) (x : Session)
      → lookup k (end_window (codes "main") opened).0.sessions ≡ some x
      → (x.window_label ≢ codes "main") × (lookup k opened.sessions ≡ some x))
    × ((k : Text) (x : Session)
        → lookup k opened.sessions ≡ some x
        → x.window_label ≢ codes "main"
        → lookup k (end_window (codes "main") opened).0.sessions ≡ some x)
    × (((end_window (codes "main") opened).1 ≡ false)
        ↔ (lookup (codes "main") opened.by_window ≡ none))
end_window-ends_example = end_window-ends id (codes "main") opened (sessions-Inv id opened-Reach)

alive-find_example :
    (alive id 28_800_009 (codes "sid") opened ≡ true)
    ↔ IsFound (find id 28_800_009 (some (codes "sid")) none opened).1
alive-find_example = alive-find id 28_800_009 115 (codes "id") opened

found_again :
    (find id 20 (some (codes "sid")) (some (codes "main")) opened).1
    ≡ found (fresh_session 20 (codes "sid") (codes "csrf") (codes "main"))
unfolding find exchange issue_bootstrap lookup insert remove keep_values keys_where prune teq
found_again = refl

find-refreshes_example :
    alive id 28_800_021
      (codes "sid")
      (find id 20 (some (codes "sid")) (some (codes "main")) opened).0
    ≡ leb (28_800_021 - 20) idle_ttl
find-refreshes_example =
    find-refreshes id 20 28_800_021 115 (codes "id") (some (codes "main")) opened
      (fresh_session 20 (codes "sid") (codes "csrf") (codes "main")) found_again

exchange-Opens_example :
    ((exchange id 9 9 10 (codes "sid") (codes "csrf") (codes "tok") (some (codes "main")) issued).1
      ≡ some (fresh_session 10 (codes "sid") (codes "csrf") (codes "main")))
    ↔ Opens id 9 9 10
        (codes "sid")
        (codes "csrf")
        (some (codes "main"))
        issued
        (codes "tok")
        (fresh_session 10 (codes "sid") (codes "csrf") (codes "main"))
exchange-Opens_example =
    exchange-Opens id 9 9 10 (codes "sid") (codes "csrf") (some (codes "main")) issued 116
      (codes "ok") (fresh_session 10 (codes "sid") (codes "csrf") (codes "main"))
      (sessions-Inv id issued-Reach)
