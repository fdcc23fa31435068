-- ===== src/Severity.antt =====
-- server/src/jobs/severity.ts: the stored enum and the lower-case words of the wire contract.
use field_note.Common.{◌≡◌, refl, Option, some, List, [], ◌∷◌, Text, codes, text_eq, find?}

pub data Severity : Type 0 where
  info maintenance repair safety : Severity

pub data ApiSeverity : Type 0 where
  info maintenance repair safety : ApiSeverity

-- TO_API, severityToApi
unfoldable pub severity_to_api : Severity → ApiSeverity
severity_to_api Severity.info = ApiSeverity.info
severity_to_api Severity.maintenance = ApiSeverity.maintenance
severity_to_api Severity.repair = ApiSeverity.repair
severity_to_api Severity.safety = ApiSeverity.safety

-- FROM_API, severityFromApi
unfoldable pub severity_from_api : ApiSeverity → Severity
severity_from_api ApiSeverity.info = Severity.info
severity_from_api ApiSeverity.maintenance = Severity.maintenance
severity_from_api ApiSeverity.repair = Severity.repair
severity_from_api ApiSeverity.safety = Severity.safety

-- API_SEVERITIES, as the words that travel
unfoldable pub word : ApiSeverity → Text
word ApiSeverity.info = codes "info"
word ApiSeverity.maintenance = codes "maintenance"
word ApiSeverity.repair = codes "repair"
word ApiSeverity.safety = codes "safety"

abbrev pub api_severities : List ApiSeverity
api_severities =
    ApiSeverity.info ∷ ApiSeverity.maintenance ∷ ApiSeverity.repair ∷ ApiSeverity.safety ∷ []

-- `z.enum(API_SEVERITIES)` and `@IsIn(API_SEVERITIES)`: the word, if it is one of the four
unfoldable pub read_severity : Text → Option ApiSeverity
unfolding word find? text_eq
read_severity t = find? (λ s. text_eq (word s) t) api_severities

pub read-word : (s : ApiSeverity) → read_severity (word s) ≡ some s
unfolding read_severity
read-word ApiSeverity.info = refl
read-word ApiSeverity.maintenance = refl
read-word ApiSeverity.repair = refl
read-word ApiSeverity.safety = refl

pub from_api-to_api : (s : Severity) → severity_from_api (severity_to_api s) ≡ s
unfolding severity_from_api severity_to_api
from_api-to_api Severity.info = refl
from_api-to_api Severity.maintenance = refl
from_api-to_api Severity.repair = refl
from_api-to_api Severity.safety = refl

pub to_api-from_api : (s : ApiSeverity) → severity_to_api (severity_from_api s) ≡ s
unfolding severity_from_api severity_to_api
to_api-from_api ApiSeverity.info = refl
to_api-from_api ApiSeverity.maintenance = refl
to_api-from_api ApiSeverity.repair = refl
to_api-from_api ApiSeverity.safety = refl
