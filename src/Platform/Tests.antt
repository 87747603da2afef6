-- ===== src/Platform/Tests.antt =====
-- Amounts, origins and the health route on concrete inputs.
use openwrapper.Prelude.{◌≡◌, refl, false, none, some, ◌++◌}
use openwrapper.Js.Text.{◌===◌, Text, codes}
use openwrapper.Sdk.Money.{negsuc, format_major_units, to_minor_units}
use openwrapper.Platform.Format.{
  format_minor_units, get_currency_decimals, format_minor_units-format_major_units, unit_of,
}
use openwrapper.Platform.Origin.{resolve_public_origin, is_public_host}
use openwrapper.Platform.Health.{HealthEnv, get_health, alive}
use openwrapper.Payments.Create.Tests.{no_world}
use openwrapper.Store.Handler.{reply}

format_minor_units-format_major_units_example :
    (s : Text) × (format_major_units (negsuc 1_049) (get_currency_decimals (codes "kwd")) ≡ some s)
    × (format_minor_units (negsuc 1_049) (codes "kwd") ≡ s ++ unit_of (codes "kwd"))
    × (to_minor_units s (get_currency_decimals (codes "kwd")) ≡ some (negsuc 1_049))
format_minor_units-format_major_units_example =
    format_minor_units-format_major_units (negsuc 1_049) (codes "kwd") refl

format_minor_units_runs : format_minor_units (negsuc 1_049) (codes "kwd") ≡ codes "-1.050 KWD"
unfolding format_minor_units ◌===◌
format_minor_units_runs = refl

resolve_public_origin_runs :
    resolve_public_origin (λ _. none) (λ _. none) (some (codes " pay.example/ ")) none
    ≡ codes "https://pay.example"
unfolding resolve_public_origin
resolve_public_origin_runs = refl

is_public_host_runs : is_public_host (some (codes "http://Localhost:3000")) ≡ false
unfolding is_public_host
is_public_host_runs = refl

abbrev down : HealthEnv
down = record {
  vars = λ _. none;
  parse_url = λ _. none;
  parse_origin = λ _. none;
  db_healthy = false;
  probe_gateway = λ _. none;
  started_at = 0;
}

-- Without a key the answer says nothing of the database, which is down.
get_health_runs :
    get_health down (λ _. none) (λ _. none) (codes "v1") no_world
    ≡ reply (alive (codes "v1")) no_world
unfolding get_health
get_health_runs = refl
