-- ===== src/Kafka/Headers.antt =====
-- internal/repository/kafka/obs.go: from the carrier of the producer to the one of the consumer.
use pingerus.Base.{
  ◌≡◌, refl, ap, sym, ◌∙◌, Bool, true, false, List, [], ◌∷◌, exists, if◌then◌else◌, arith,
}
use pingerus.Text.{Text, text_eq}
use pingerus.Text.Laws.{text_eq_iff}
use pingerus.Kafka.MapCarrierFromKafka
use pingerus.Kafka.MapCarrierHeaders
use pingerus.Kafka.MapCarrierHeaders.{Entries, keys, to_kafka, Visits}

-- What the propagator does with a carrier: a call Set k v for each pair.
abbrev pub Calls : Type 0
Calls = List (Text × Text)

unfoldable pub set_all : Calls → MapCarrierHeaders.Entries → MapCarrierHeaders.Entries
unfolding MapCarrierHeaders.set
set_all [] m = m
set_all ((k, v) ∷ calls) m = set_all calls (MapCarrierHeaders.set k v m)

-- The value of the last call for a key, or the one before the calls.
abbrev pub last_value : Calls → Text → Text → Text
last_value [] k before = before
last_value ((j, v) ∷ calls) k before = last_value calls k (if text_eq k j then v else before)

get-set :
    (k j v : Text) (m : Entries)
    → MapCarrierHeaders.get (MapCarrierHeaders.set j v m) k
      ≡ (if text_eq k j then v else MapCarrierHeaders.get m k)
unfolding MapCarrierHeaders.get MapCarrierHeaders.set
get-set k j v [] = refl
get-set k j v ((i, x) ∷ m) =
    ground (arith, get-set k j v m, text_eq_iff j i, text_eq_iff k i, text_eq_iff k j)

get-set_all :
    (calls : Calls) (m : Entries) (k : Text)
    → MapCarrierHeaders.get (set_all calls m) k ≡ last_value calls k (MapCarrierHeaders.get m k)
unfolding set_all
get-set_all [] m k = refl
get-set_all ((j, v) ∷ calls) m k =
    get-set_all calls (MapCarrierHeaders.set j v m) k ∙ ap (last_value calls k) (get-set k j v m)

get-absent :
    (m : Entries) (k : Text) → exists (text_eq k) (keys m) ≡ false → MapCarrierHeaders.get m k ≡ []
unfolding MapCarrierHeaders.get
get-absent [] k e = refl
get-absent ((j, x) ∷ m) k e = ground (arith, get-absent m k)

get-to_kafka :
    (order : List Text) (m : Entries) (k : Text)
    → MapCarrierFromKafka.get (to_kafka order m) k
      ≡ (if exists (text_eq k) order then MapCarrierHeaders.get m k else [])
unfolding to_kafka MapCarrierFromKafka.get
get-to_kafka [] m k = refl
get-to_kafka (j ∷ order) m k = ground (arith, get-to_kafka order m k, text_eq_iff k j)

keys-to_kafka :
    (order : List Text) (m : Entries) → MapCarrierFromKafka.keys (to_kafka order m) ≡ order
unfolding to_kafka MapCarrierFromKafka.keys
keys-to_kafka [] m = refl
keys-to_kafka (j ∷ order) m = ap (λ l. j ∷ l) (keys-to_kafka order m)

if_absent : (b c : Bool) (t : Text) → b ≡ c → (c ≡ false → t ≡ []) → (if b then t else []) ≡ t
if_absent true c t e h = refl
if_absent false c t e h = sym (h (sym e))

-- Whatever the propagator sets on the producer's side, and in whichever order the range visits the keys
-- of the map: from the headers of the message the consumer's side gets for every key the value that
-- was set last, and the empty text for a key that was never set, its Keys are the keys visited, and a
-- Set on the consumer's side changes nothing of this.
pub get-set_all-to_kafka :
    (calls : Calls) (order : List Text)
    → Visits order (set_all calls [])
    → (k j v : Text)
    → let sent = to_kafka order (set_all calls []) in
      (MapCarrierFromKafka.get (MapCarrierFromKafka.set j v sent) k ≡ last_value calls k [])
      × (MapCarrierFromKafka.keys (MapCarrierFromKafka.set j v sent) ≡ order)
unfolding MapCarrierFromKafka.set MapCarrierHeaders.get
get-set_all-to_kafka calls order visits k j v =
    let m = set_all calls [] in
    (
      get-to_kafka order m k
          ∙ if_absent (exists (text_eq k) order) (exists (text_eq k) (keys m)) _ (visits k)
              (get-absent m k)
          ∙ get-set_all calls [] k,
      keys-to_kafka order m,
    )
