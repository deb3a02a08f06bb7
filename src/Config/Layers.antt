-- ===== src/Config/Layers.antt =====
-- Where the values of a configuration come from. What is relied on of viper: a value of the file or of
-- the environment goes before the default, a default stays until the key gets another one, and setting
-- a default changes nothing else. Keys are in lower case.
use mathlib.Core.Path.{fun_ext}
use pingerus.Base.{◌≡◌, refl, ap, ◌∙◌, Option, none, some, List, [], ◌∷◌, if◌then◌else◌}
use pingerus.Text.{Text, codes, text_eq}
use pingerus.World.Errors.{Result, ok, err}
use pingerus.Config.{Value, Viper, Lookup, ◌>>=◌, prepared, set_defaults, with_file, read_dropped}
use pingerus.Config.PingWorker
use pingerus.Config.EmailNotifier
use pingerus.Config.Scheduler
use pingerus.Config.ApiGateway

-- The first value, or the second where there is none.
abbrev pub first : Option Value → Option Value → Option Value
first (some x) o = some x
first none o = o

-- The default of a key in a list of calls, of which the last one counts, over the defaults before.
unfoldable pub default_in : List (Text × Value) → Text → Option Value → Option Value
default_in [] key before = before
default_in ((k, x) ∷ more) key before =
    default_in more key (if text_eq key k then some x else before)

pub record IsLayered {V F : Type 0} (v : Viper V F) : Type 0 where
  pub given : V → Lookup
  pub default : V → Lookup
  pub get_layers : (s : V) (key : Text) → v.get s key ≡ first (given s key) (default s key)
  pub new_default : (key : Text) → default v.new key ≡ none
  pub type_default :
      (t : Text) (s : V) (key : Text) → default (v.set_config_type t s) key ≡ default s key
  pub file_default :
      (t : Text) (s : V) (key : Text) → default (v.set_config_file t s) key ≡ default s key
  pub read_default :
      (s s' : V) → v.read_in_config s ≡ ok s' → (key : Text) → default s' key ≡ default s key
  pub replacer_default :
      (a b : Text) (s : V) (key : Text) → default (v.set_env_key_replacer a b s) key ≡ default s key
  pub env_default : (s : V) (key : Text) → default (v.automatic_env s) key ≡ default s key
  pub set_default_default :
      (k : Text) (x : Value) (s : V) (key : Text)
      → default (v.set_default k x s) key ≡ (if text_eq key k then some x else default s key)

module _ {V F : Type 0} (v : Viper V F) (l : IsLayered v) where
  default-read_dropped :
      (s : V) (r : Result V)
      → v.read_in_config s ≡ r
      → (key : Text) → l.default (read_dropped v s r) key ≡ l.default s key
  default-read_dropped s (ok s') e key = l.read_default s s' e key
  default-read_dropped s (err x) e key = refl

  default-with_file :
      (path : Text) (s : V) (key : Text) → l.default (with_file v path s) key ≡ l.default s key
  default-with_file [] s key = refl
  default-with_file (c ∷ path) s key =
      let t = v.set_config_file (c ∷ path) s in
      default-read_dropped t (v.read_in_config t) refl key ∙ l.file_default (c ∷ path) s key

  default-set_defaults :
      (defaults : List (Text × Value)) (s : V) (key : Text)
      → l.default (set_defaults v defaults s) key ≡ default_in defaults key (l.default s key)
  unfolding set_defaults default_in
  default-set_defaults [] s key = refl
  default-set_defaults ((k, x) ∷ more) s key =
      default-set_defaults more (v.set_default k x s) key
      ∙ ap (default_in more key) (l.set_default_default k x s key)

  -- What Unmarshal finds under a key.
  abbrev pub layered : List (Text × Value) → Text → Lookup
  layered defaults path key =
      first (l.given (prepared v defaults path) key) (default_in defaults key none)

  get-prepared :
      (defaults : List (Text × Value)) (path key : Text)
      → v.get (prepared v defaults path) key ≡ layered defaults path key
  unfolding prepared
  get-prepared defaults path key =
      let base = with_file v path (v.set_config_type (codes "yaml") v.new) in
      let filled = set_defaults v defaults base in
      l.get_layers _ key
      ∙ ap (first _) (
          l.env_default _ key
          ∙ l.replacer_default (codes ".") (codes "_") filled key
          ∙ default-set_defaults defaults base key
          ∙ ap (default_in defaults key) (
              default-with_file path _ key
              ∙ l.type_default (codes "yaml") v.new key
              ∙ l.new_default key))

  pub get-layered :
      (defaults : List (Text × Value)) (path : Text)
      → v.get (prepared v defaults path) ≡ layered defaults path
  get-layered defaults path = fun_ext (λ key. get-prepared defaults path key)

  -- For a viper with the laws of IsLayered: the configuration of each program is what Unmarshal makes of
  -- the values that the file and the environment give, and of the last default of a key for which
  -- they give none.
  pub load-layered :
      (path : Text)
      → (PingWorker.load v path ≡ PingWorker.unmarshal v (layered PingWorker.defaults path))
        × (EmailNotifier.load v path
            ≡ EmailNotifier.unmarshal v (layered EmailNotifier.defaults path))
        × (Scheduler.load v path ≡ Scheduler.unmarshal v (layered Scheduler.defaults path))
        × (ApiGateway.load v path ≡ (
            ApiGateway.unmarshal v (layered ApiGateway.defaults path) >>= ApiGateway.require_dsn v))
  unfolding PingWorker.load EmailNotifier.load Scheduler.load ApiGateway.load
  load-layered path = (
    ap (PingWorker.unmarshal v) (get-layered PingWorker.defaults path),
    ap (EmailNotifier.unmarshal v) (get-layered EmailNotifier.defaults path),
    ap (Scheduler.unmarshal v) (get-layered Scheduler.defaults path),
    ap (λ look. ApiGateway.unmarshal v look >>= ApiGateway.require_dsn v)
        (get-layered ApiGateway.defaults path),
  )
