-- ===== src/Types.antt =====
-- pkg/types: requests, responses, stream chunks and API errors. The metadata of a request, which is
-- never sent, is not modelled.
use aigateway.Prelude.{ℕ, String, Bool, Option, List}

-- Go's int, where a negative one may stand.
pub data ℤ : Type 0 where
  pos negsuc : ℕ → ℤ

-- The 64 bits of a float64 that is passed on unread.
abbrev pub FloatBits : Type 0
FloatBits = ℕ

pub record Message : Type 0 where
  pub role : String
  pub content : String

pub record ChatCompletionRequest : Type 0 where
  pub model : String
  pub messages : List Message
  pub temperature : Option FloatBits
  pub max_tokens : Option ℤ
  pub stream : Bool
  pub top_p : Option FloatBits
  pub stop : List String

pub record Usage : Type 0 where
  pub prompt_tokens : ℕ
  pub completion_tokens : ℕ
  pub total_tokens : ℕ

pub record Choice : Type 0 where
  pub index : ℕ
  pub message : Message
  pub finish_reason : String

pub record ChatCompletionResponse : Type 0 where
  pub id : String
  pub object : String
  pub created : ℕ
  pub model : String
  pub choices : List Choice
  pub usage : Usage

pub record Delta : Type 0 where
  pub role : String
  pub content : String

pub record StreamDelta : Type 0 where
  pub index : ℕ
  pub delta : Delta
  pub finish_reason : String

pub record StreamChunk : Type 0 where
  pub id : String
  pub object : String
  pub created : ℕ
  pub model : String
  pub choices : List StreamDelta

-- errors.go
pub record ApiError : Type 0 where
  pub code : ℕ
  pub message : String
  pub type : String

abbrev pub new_error_response : ℕ → String → String → ApiError
new_error_response code err_type message = record {
  code = code;
  message = message;
  type = err_type;
}

-- A model that a provider offers.
pub record Model : Type 0 where
  pub id : String
  pub object : String
  pub provider : String

pub record ModelList : Type 0 where
  pub object : String
  pub models : List Model
