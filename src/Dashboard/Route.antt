-- ===== src/Dashboard/Route.antt =====
-- GET of apps/web/app/api/dashboard/metrics/route.ts, with `getDashboardData` from end to end: the data is
-- fetched where the cache has none, and nothing else happens to the cache meanwhile.
use openwrapper.Prelude.{◌≡◌, refl, ℕ, Option, none, some, [], ◌∷◌, if◌then◌else◌}
use openwrapper.Js.Text.{Text, codes, ◌===◌, or_default, starts_with}
use openwrapper.Store.{Mode, live, test}
use openwrapper.Dashboard.Cache.{Cache, read_cache, write_cache}

-- `/openwrapper_dashboard_mode=(live|test)/`, at its first match.
unfoldable pub cookie_mode : Text → Option Mode
unfolding starts_with
cookie_mode [] = none
cookie_mode (c ∷ s) =
    let rest = cookie_mode s in
    if starts_with (c ∷ s) (codes "openwrapper_dashboard_mode=live")
    then some live
    else if starts_with (c ∷ s) (codes "openwrapper_dashboard_mode=test")
    then some test
    else rest

abbrev chosen_mode : Option Text → Text → Mode
chosen_mode none cookie = or_default (cookie_mode cookie) test
chosen_mode (some s) cookie =
    if s === codes "live"
    then live
    else if s === codes "test"
    then test
    else or_default (cookie_mode cookie) test

pub data MetricsReply (D : Type 0) : Type 0 where
  unauthorized : MetricsReply D
  shown : D → MetricsReply D

module _ {D : Type 0} (fetch : Text → Mode → D) (asked_at fetched_at : ℕ) where
  abbrev cached_or_fetched : Text → Mode → Option D → Cache D → D × Cache D
  cached_or_fetched user m (some d) c = (d, c)
  cached_or_fetched user m none c = (fetch user m, write_cache user m fetched_at (fetch user m) c)

  -- `getDashboardData`
  unfoldable pub get_dashboard_data : Text → Mode → Cache D → D × Cache D
  unfolding read_cache write_cache
  get_dashboard_data user m c = cached_or_fetched user m (read_cache user m asked_at c) c

  abbrev show_to : D × Cache D → MetricsReply D × Cache D
  show_to (d, c) = (shown d, c)

  -- `GET`, with the session's user, the parameter `environment` and the header `cookie`.
  unfoldable pub get_metrics :
      Option Text → Option Text → Option Text → Cache D → MetricsReply D × Cache D
  unfolding get_dashboard_data cookie_mode ◌===◌
  get_metrics none param cookie c = (unauthorized, c)
  get_metrics (some user) param cookie c =
      show_to (get_dashboard_data user (chosen_mode param (or_default cookie [])) c)

cookie_mode_runs : cookie_mode (codes "a=1; openwrapper_dashboard_mode=live") ≡ some live
unfolding cookie_mode
cookie_mode_runs = refl
