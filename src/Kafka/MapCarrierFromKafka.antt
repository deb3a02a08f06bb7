-- ===== src/Kafka/MapCarrierFromKafka.antt =====
-- internal/repository/kafka/obs.go: mapCarrierFromKafka, the headers of a message as they are read.
use pingerus.Base.{List, [], ◌∷◌, if◌then◌else◌}
use pingerus.Text.{Text, text_eq}

-- kafka.Header
pub record Header : Type 0 where
  pub key : Text
  pub value : Text

unfoldable pub get : List Header → Text → Text
get [] k = []
get (x ∷ h) k = if text_eq k x.key then x.value else get h k

unfoldable pub set : Text → Text → List Header → List Header
set k v h = h

unfoldable pub keys : List Header → List Text
keys [] = []
keys (x ∷ h) = x.key ∷ keys h
