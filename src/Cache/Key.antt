-- ===== src/Cache/Key.antt =====
-- internal/cache/cache.go: `BuildKey`. SHA-256 and its hexadecimal form are a parameter: the text
-- of the digest of a text.
use Prim.Native.Char.{nul}
use Prim.Native.String.{◌++◌}
use mathlib.Core.Path.{◌∙◌, sym, ap₂}
use text.Mathlib.TextLemmas.{append_assoc, nil-append, cons-append, append_cancel_left}
use text.Mathlib.TextLemmas.{head-eq_of_cons-eq, tail-eq_of_cons-eq}
use aigateway.Prelude.{String, List, [], ◌∷◌, ◌≡◌, ◌≢◌, refl}
use aigateway.Types.{Message}

-- What is hashed of the messages: roles and contents, one after the other.
unfoldable pub message_text : List Message → String
message_text [] = ""
message_text (m ∷ ms) = m.role ++ (m.content ++ message_text ms)

unfoldable pub key_text : String → String → List Message → String
unfolding message_text
key_text tenant_id model messages = tenant_id ++ (String.◌∷◌ nul (model ++ message_text messages))

unfoldable pub build_key : (String → String) → String → String → List Message → String
build_key sha256_hex tenant_id model messages =
    "aegis:cache:" ++ sha256_hex (key_text tenant_id model messages)

-- Two messages and one that joins them have the same key, so the cache takes the one
-- conversation for the other.
pub build_key_collides :
    (sha256_hex : String → String) (tenant_id model : String) (first second : Message)
    (rest : List Message)
    → build_key sha256_hex tenant_id model (first ∷ second ∷ rest)
      ≡ build_key sha256_hex tenant_id model (
          record { role = first.role; content = first.content ++ (second.role ++ second.content) }
          ∷ rest)
unfolding build_key key_text
build_key_collides sha256_hex tenant_id model first second rest = simp append_assoc

-- A text with no NUL in it.
abbrev pub NulFree : String → Type 0
NulFree String.[] = Unit {0}
NulFree (String.◌∷◌ c s) = (c ≢ nul) × NulFree s

-- A text up to its first NUL is determined by the whole.
split_at_nul :
    (s t u v : String)
    → NulFree s
    → NulFree t
    → s ++ (String.◌∷◌ nul u) ≡ t ++ (String.◌∷◌ nul v)
    → s ≡ t
split_at_nul String.[] String.[] u v hs ht e = refl
split_at_nul String.[] (String.◌∷◌ d t) u v hs ht e =
    absurd (ht.0 (sym (head-eq_of_cons-eq (sym (nil-append _) ∙ (e ∙ cons-append d t _)))))
split_at_nul (String.◌∷◌ c s) String.[] u v hs ht e =
    absurd (hs.0 (head-eq_of_cons-eq (sym (cons-append c s _) ∙ (e ∙ nil-append _))))
split_at_nul (String.◌∷◌ c s) (String.◌∷◌ d t) u v hs ht e =
    let same = sym (cons-append c s _) ∙ (e ∙ cons-append d t _) in
    ap₂ String.◌∷◌ (head-eq_of_cons-eq same)
      (split_at_nul s t u v hs.1 ht.1 (tail-eq_of_cons-eq same))

-- Tenants whose names hold no NUL never share a key, where the digest tells the two texts apart.
pub build_key_tenants :
    (sha256_hex : String → String) (t t' model model' : String) (ms ms' : List Message)
    → NulFree t
    → NulFree t'
    → (sha256_hex (key_text t model ms) ≡ sha256_hex (key_text t' model' ms')
        → key_text t model ms ≡ key_text t' model' ms')
    → build_key sha256_hex t model ms ≡ build_key sha256_hex t' model' ms'
    → t ≡ t'
unfolding build_key key_text
build_key_tenants sha256_hex t t' model model' ms ms' h h' no_collision e =
    split_at_nul t t' (model ++ message_text ms) (model' ++ message_text ms') h h'
      (no_collision (append_cancel_left "aegis:cache:" _ _ e))
