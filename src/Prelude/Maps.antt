-- ===== src/Prelude/Maps.antt =====
-- A JavaScript `Map` with text keys, as the function that `get` computes.
use Prim.Native.String.{String}
use mathlib.Core.Path.{◌≡◌}
use mathlib.Core.Option.{Option, none, some}
use steak_pi.Prelude.Tests.{if◌then◌else◌}
use steak_pi.Prelude.Text.{str_eq, str_eq_refl}

abbrev pub Map {ℓ} : Type ℓ → Type ℓ
Map V = String → Option V

module _ {ℓ} {V : Type ℓ} where
  abbrev pub no_entries : Map V
  no_entries k = none

  -- `m.set(k, v)`.
  abbrev pub put : Map V → String → V → Map V
  put m k v j = if str_eq j k then some v else m j

  -- `m.delete(k)`.
  abbrev pub delete : Map V → String → Map V
  delete m k j = if str_eq j k then none else m j

  pub put_self : (m : Map V) (k : String) (v : V) → put m k v k ≡ some v
  put_self m k v = rw (str_eq_refl k)
