-- ===== src/Agent/Fit.antt =====
-- internal/llm: the request that a provider is sent (llm.go), and whether it fits (tokens.go). A text has as many bytes
-- as characters here.
use Prim.Native.Nat.{◌/◌, ◌-◌}
use scheck.Prelude.{String, ℕ, ◌+◌, Bool, List, [], ◌∷◌, length, if◌then◌else◌}
use scheck.Prelude.Int.{ℤ, pos, ltb_ℤ, ◌+ℤ◌}
use scheck.Prelude.Strings.{codes}

-- `ToolCall`; the input is the text of a JSON value.
pub record ToolCall : Type 0 where
  pub id : String
  pub name : String
  pub input : String

-- `ToolResult`.
pub record ToolResult : Type 0 where
  pub call_id : String
  pub content : String
  pub is_error : Bool

-- `Role`.
pub data Role : Type 0 where
  role_user role_assistant : Role

-- `Message`.
pub record Message : Type 0 where
  pub role : Role
  pub text : String
  pub tool_calls : List ToolCall
  pub tool_results : List ToolResult

-- `Tool`.
pub record Tool : Type 0 where
  pub name : String
  pub description : String
  pub schema : String

-- `Request`, less the model, the effort and the mark of a block that may be cached.
pub record Request : Type 0 where
  pub system : List String
  pub messages : List Message
  pub tools : List Tool
  pub max_tokens : ℤ

size : String → ℕ
size s = length (codes s)

-- `tokensOf`.
tokens_of : ℕ → ℕ
tokens_of bytes = (bytes + 3 - 1) / 3

total : {A : Type 0} → (A → ℕ) → List A → ℕ
total f [] = 0
total f (a ∷ as') = f a + total f as'

block_tokens : String → ℕ
block_tokens text = tokens_of (size text) + 8

tool_tokens : Tool → ℕ
tool_tokens t = tokens_of (size t.name + size t.description + size t.schema) + 24

call_tokens : ToolCall → ℕ
call_tokens c = 12 + tokens_of (size c.id + size c.name + size c.input)

result_tokens : ToolResult → ℕ
result_tokens r = 12 + tokens_of (size r.call_id + size r.content)

message_tokens : Message → ℕ
message_tokens m =
    8
    + tokens_of (size m.text)
    + total call_tokens m.tool_calls
    + total result_tokens m.tool_results

-- `Estimate`.
pub estimate : Request → ℕ
estimate r =
    64 + total block_tokens r.system + total tool_tokens r.tools + total message_tokens r.messages

-- What `CheckFit` comes to.
pub data Fit : Type 0 where
  fits too_large limit_unknown : Fit

-- `CheckFit`.
pub check_fit : Request → ℤ → Fit
check_fit r max_context =
    if ltb_ℤ (pos 0) max_context
    then (if ltb_ℤ max_context (pos (estimate r) +ℤ r.max_tokens) then too_large else fits)
    else limit_unknown
