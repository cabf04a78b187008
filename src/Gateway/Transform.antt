-- ===== src/Gateway/Transform.antt =====
-- internal/gateway/transform.go: the rules that change a request before it is routed.
use Prim.Native.String.{◌++◌}
use aigateway.Prelude.{
  String, Bool, true, false, Option, none, some, List, [], ◌∷◌, not, ◌&&◌, str_eq, if◌then◌else◌,
}
use aigateway.Prelude.Dict.{Dict}
use aigateway.Types.{Message, ChatCompletionRequest}

pub record TransformConfig : Type 0 where
  pub system_prompt_prefix : String
  pub system_prompt_suffix : String
  pub default_system_prompt : String
  pub header_injections : Dict String

-- The system message as the loop leaves it: both writes take the content from before the first.
unfoldable pub transform_content : TransformConfig → String → String
transform_content cfg content =
    if not (str_eq cfg.system_prompt_suffix "")
    then content ++ (" " ++ cfg.system_prompt_suffix)
    else if not (str_eq cfg.system_prompt_prefix "")
    then cfg.system_prompt_prefix ++ (" " ++ content)
    else content

-- The loop: the first system message is changed; whether there is one.
unfoldable pub transform_messages : TransformConfig → List Message → Bool × List Message
unfolding transform_content
transform_messages cfg [] = (false, [])
transform_messages cfg (m ∷ ms) =
    let (found, ms') = transform_messages cfg ms in
    if str_eq m.role "system"
    then (true, record m { content = transform_content cfg m.content } ∷ ms)
    else (found, m ∷ ms')

unfoldable pub transform_request :
    Option TransformConfig → ChatCompletionRequest → ChatCompletionRequest
unfolding transform_messages
transform_request none req = req
transform_request (some cfg) req =
    let (has_system, messages) = transform_messages cfg req.messages in
    if not has_system && not (str_eq cfg.default_system_prompt "")
    then (record req {
      messages = record { role = "system"; content = cfg.default_system_prompt } ∷ messages;
    })
    else (record req { messages = messages })
