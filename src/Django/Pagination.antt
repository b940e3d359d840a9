-- ===== src/Django/Pagination.antt =====
-- netix_backend/django/pagination.py: the limits that a request's page gets.
use Prim.Native.String
use netix_backend.Prelude.{Option, none, some, String}
use netix_backend.Prelude.Int.{ℤ, pos}

-- A paginator class.
pub record Pagination : Type 0 where
  pub default_limit : Option ℤ
  pub max_limit : Option ℤ
  pub setting_prefix : Option String

abbrev pub netix_pagination : Pagination
netix_pagination = record {
  default_limit = some (pos 1000);
  max_limit = some (pos 1000);
  setting_prefix = none;
}

abbrev pub base_pagination : Pagination
base_pagination = record netix_pagination { setting_prefix = some "NETIX_PAGINATION" }

abbrev pub big_pagination : Pagination
big_pagination = record {
  default_limit = some (pos 2000);
  max_limit = some (pos 10000);
  setting_prefix = some "NETIX_BIG_PAGINATION";
}

unfoldable pub limit_offset_pagination : ℤ → Option ℤ → Option String → Pagination
limit_offset_pagination default_limit max_limit setting_prefix = record {
  default_limit = some default_limit;
  max_limit = max_limit;
  setting_prefix = setting_prefix;
}

-- The settings: `none` is one that is not there, `some none` one that is None.
abbrev pub Settings : Type 0
Settings = String → Option (Option ℤ)

abbrev pub or_fallback : Option ℤ → Option (Option ℤ) → Option ℤ
or_fallback fallback none = fallback
or_fallback fallback (some value) = value

unfoldable pub setting : Settings → Option String → String → Option ℤ → Option ℤ
setting settings none suffix fallback = fallback
setting settings (some prefix) suffix fallback =
    or_fallback fallback (settings (String.◌++◌ prefix (String.◌++◌ "_" suffix)))

unfoldable pub get_default_limit : Settings → Pagination → Option ℤ
get_default_limit settings p = setting settings p.setting_prefix "DEFAULT_LIMIT" p.default_limit

unfoldable pub get_max_limit : Settings → Pagination → Option ℤ
get_max_limit settings p = setting settings p.setting_prefix "MAX_LIMIT" p.max_limit

-- `get_limit`: DRF's `super_get_limit` reads the request against the two limits of now.
unfoldable pub get_limit : Settings → (Option ℤ → Option ℤ → Option ℤ) → Pagination → Option ℤ
get_limit settings super_get_limit p =
    super_get_limit (get_default_limit settings p) (get_max_limit settings p)
