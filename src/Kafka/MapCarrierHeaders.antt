-- ===== src/Kafka/MapCarrierHeaders.antt =====
-- internal/repository/kafka/obs.go: mapCarrierHeaders, which becomes the headers of a message. A Go map is
-- its entries with their keys once each; the order in which a range visits them is an argument, since
-- the language leaves it open.
use pingerus.Base.{◌≡◌, List, [], ◌∷◌, map, exists, if◌then◌else◌}
use pingerus.Text.{Text, text_eq}
use pingerus.Kafka.MapCarrierFromKafka.{Header}

abbrev pub Entries : Type 0
Entries = List (Text × Text)

unfoldable pub get : Entries → Text → Text
get [] k = []
get ((j, x) ∷ m) k = if text_eq k j then x else get m k

unfoldable pub set : Text → Text → Entries → Entries
set k v [] = (k, v) ∷ []
set k v ((j, x) ∷ m) = let rest = set k v m in if text_eq k j then (k, v) ∷ m else (j, x) ∷ rest

abbrev pub keys : Entries → List Text
keys m = map (λ e. e.0) m

-- ToKafka, where the range visits the keys in this order.
unfoldable pub to_kafka : List Text → Entries → List Header
unfolding get
to_kafka order m = map (λ k. record { key = k; value = get m k }) order

-- The range visits the keys of the map and no others.
abbrev pub Visits : List Text → Entries → Type 0
Visits order m = (k : Text) → exists (text_eq k) order ≡ exists (text_eq k) (keys m)
