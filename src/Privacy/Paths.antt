-- ===== src/Privacy/Paths.antt =====
-- Where the texts of a body stand, as a list of paths: what the walks have to reach.
use llm_proxy_pii_rust.Prelude.{
  ◌≡◌, true, Option, none, some, List, [], ◌∷◌, ◌++◌, if◌then◌else◌, Bytes, ◌==◌, bytes_eq,
  bytes_beq, codes, All,
}
use llm_proxy_pii_rust.Json.{
  Value, string, array, object, Items, nil, cons, Fields, end, field, get, as_str,
}

-- The field with a key; each element of an array; the value itself, if its `type` is the given one.
pub data Step : Type 0 where
  key : Bytes → Step
  each : Step
  typed : Bytes → Step

-- What stands at the end of a path: a text; every text in the value; every text that is a `description`
-- in the value, at any depth.
pub data Leaf : Type 0 where
  text leaves descriptions : Leaf

pub record Access : Type 0 where
  pub steps : List Step
  pub leaf : Leaf

-- The texts that are the value itself, or stand anywhere in it.
unfoldable pub own_text : Value → List Bytes
own_text (string s) = s ∷ []
own_text _ = []

unfoldable mutual
  pub leaves_of : Value → List Bytes
  leaves_of (string s) = s ∷ []
  leaves_of (array xs) = leaves_of_items xs
  leaves_of (object fs) = leaves_of_fields fs
  leaves_of _ = []

  pub leaves_of_items : Items → List Bytes
  leaves_of_items nil = []
  leaves_of_items (cons x xs) = leaves_of x ++ leaves_of_items xs

  pub leaves_of_fields : Fields → List Bytes
  leaves_of_fields end = []
  leaves_of_fields (field k v fs) = leaves_of v ++ leaves_of_fields fs

-- Every text that stands under a key `description`, however deep, also below a value of such a key.
unfoldable mutual
  unfolding own_text bytes_beq

  pub descriptions_of : Value → List Bytes
  descriptions_of (array xs) = descriptions_of_items xs
  descriptions_of (object fs) = descriptions_of_fields fs
  descriptions_of _ = []

  pub descriptions_of_items : Items → List Bytes
  descriptions_of_items nil = []
  descriptions_of_items (cons x xs) = descriptions_of x ++ descriptions_of_items xs

  pub descriptions_of_fields : Fields → List Bytes
  descriptions_of_fields end = []
  descriptions_of_fields (field k v fs) =
      (if k == codes "description" then own_text v else [])
      ++ (descriptions_of v ++ descriptions_of_fields fs)

-- No description stands below a value that is itself under the key `description`.
unfoldable mutual
  unfolding descriptions_of bytes_beq

  pub IsPlain : Value → Type 0
  IsPlain (array xs) = IsPlainItems xs
  IsPlain (object fs) = IsPlainFields fs
  IsPlain _ = Unit

  pub IsPlainItems : Items → Type 0
  IsPlainItems nil = Unit
  IsPlainItems (cons x xs) = IsPlain x × IsPlainItems xs

  pub IsPlainFields : Fields → Type 0
  IsPlainFields end = Unit
  IsPlainFields (field k v fs) =
      (k == codes "description" ≡ true → descriptions_of v ≡ []) × (IsPlain v × IsPlainFields fs)

unfoldable pub at_leaf : Leaf → Value → List Bytes
unfolding own_text leaves_of descriptions_of
at_leaf text v = own_text v
at_leaf leaves v = leaves_of v
at_leaf descriptions v = descriptions_of v

-- Each element, the value that is there, and each element if the value is an array.
abbrev pub AllItems : (Value → Type 0) → Items → Type 0
AllItems Q nil = Unit
AllItems Q (cons x xs) = Q x × AllItems Q xs

abbrev pub OnSome : (Value → Type 0) → Option Value → Type 0
OnSome Q none = Unit
OnSome Q (some v) = Q v

abbrev pub OnItems : (Value → Type 0) → Value → Type 0
OnItems Q (array xs) = AllItems Q xs
OnItems Q _ = Unit

-- Each text at the end of a path has the property.
module _ (P : Bytes → Type 0) where
  unfoldable pub Along : List Step → Leaf → Value → Type 0
  unfolding at_leaf
  Along [] leaf v = All P (at_leaf leaf v)
  Along (key k ∷ steps) leaf v = OnSome (Along steps leaf) (get k v)
  Along (each ∷ steps) leaf v = OnItems (Along steps leaf) v
  Along (typed name ∷ steps) leaf v = as_str (get (codes "type") v) ≡ some name → Along steps leaf v

pub OnSome-imp :
    {Q R : Value → Type 0} (h : (v : Value) → Q v → R v) (o : Option Value)
    → OnSome Q o
    → OnSome R o
OnSome-imp h none q = tt
OnSome-imp h (some v) q = h v q

AllItems-imp :
    {Q R : Value → Type 0} (h : (v : Value) → Q v → R v) (xs : Items)
    → AllItems Q xs
    → AllItems R xs
AllItems-imp h nil q = tt
AllItems-imp h (cons x xs) q = (h x q.0, AllItems-imp h xs q.1)

pub OnItems-imp :
    {Q R : Value → Type 0} (h : (v : Value) → Q v → R v) (v : Value) → OnItems Q v → OnItems R v
OnItems-imp h (array xs) q = AllItems-imp h xs q
OnItems-imp h _ q = tt

abbrev pub path : List Step → Leaf → Access
path steps leaf = record { steps = steps; leaf = leaf }

-- Where the texts of a chat-completions request stand.
abbrev pub openai_paths : List Access
openai_paths =
    path (key (codes "messages") ∷ each ∷ key (codes "content") ∷ []) text
    ∷ path (key (codes "messages") ∷ each ∷ key (codes "content") ∷ each ∷ []) text
    ∷ path (key (codes "messages") ∷ each ∷ key (codes "content") ∷ each ∷ key (codes "text") ∷ [])
        text
    ∷ path (key (codes "messages") ∷ each ∷ key (codes "name") ∷ []) text
    ∷ path
        (key (codes "messages")
          ∷ each
          ∷ key (codes "tool_calls")
          ∷ each
          ∷ key (codes "function")
          ∷ key (codes "arguments")
          ∷ [])
        text
    ∷ path
        (key (codes "messages") ∷ each ∷ key (codes "function_call") ∷ key (codes "arguments") ∷ [])
        text
    ∷ path (key (codes "tools") ∷ each ∷ key (codes "function") ∷ key (codes "description") ∷ [])
        text
    ∷ path (key (codes "tools") ∷ each ∷ key (codes "function") ∷ key (codes "parameters") ∷ [])
        descriptions
    ∷ []

abbrev in_block : List Step → Leaf → Access
in_block steps leaf =
    path (key (codes "messages") ∷ each ∷ key (codes "content") ∷ each ∷ steps) leaf

abbrev in_source : List Step → Access
in_source steps = in_block (typed (codes "document") ∷ key (codes "source") ∷ steps) text

-- Where the texts of the messages and of the tools of a native request stand.
abbrev pub message_paths : List Access
message_paths =
    path (key (codes "messages") ∷ each ∷ key (codes "content") ∷ []) text
    ∷ path (key (codes "messages") ∷ each ∷ key (codes "content") ∷ each ∷ []) text
    ∷ in_block (typed (codes "text") ∷ key (codes "text") ∷ []) text
    ∷ in_block (typed (codes "tool_use") ∷ key (codes "input") ∷ []) leaves
    ∷ in_block (typed (codes "tool_result") ∷ key (codes "content") ∷ []) text
    ∷ in_block (typed (codes "tool_result") ∷ key (codes "content") ∷ each ∷ []) text
    ∷ in_block
        (typed (codes "tool_result")
          ∷ key (codes "content")
          ∷ each
          ∷ typed (codes "text")
          ∷ key (codes "text")
          ∷ [])
        text
    ∷ in_block (typed (codes "thinking") ∷ key (codes "thinking") ∷ []) text
    ∷ in_block (typed (codes "document") ∷ key (codes "title") ∷ []) text
    ∷ in_block (typed (codes "document") ∷ key (codes "context") ∷ []) text
    ∷ in_source (typed (codes "text") ∷ key (codes "data") ∷ [])
    ∷ in_source (typed (codes "content") ∷ key (codes "content") ∷ [])
    ∷ in_source (typed (codes "content") ∷ key (codes "content") ∷ each ∷ [])
    ∷ in_source (
        typed (codes "content")
        ∷ key (codes "content")
        ∷ each
        ∷ typed (codes "text")
        ∷ key (codes "text")
        ∷ [])
    ∷ path (key (codes "tools") ∷ each ∷ key (codes "description") ∷ []) text
    ∷ path (key (codes "tools") ∷ each ∷ key (codes "input_schema") ∷ []) descriptions
    ∷ []

-- Where the texts of a native messages request stand.
abbrev pub anthropic_paths : List Access
anthropic_paths =
    path (key (codes "system") ∷ []) text
    ∷ path (key (codes "system") ∷ each ∷ key (codes "text") ∷ []) text
    ∷ message_paths

-- No schema of a tool has a description below a value that is itself under the key `description`.
abbrev pub PlainParameters : Value → Type 0
PlainParameters x = OnSome IsPlain (get (codes "parameters") x)

abbrev pub PlainTool : Value → Type 0
PlainTool x = OnSome PlainParameters (get (codes "function") x)

abbrev pub PlainNativeTool : Value → Type 0
PlainNativeTool x = OnSome IsPlain (get (codes "input_schema") x)

-- The same of every tool of a chat-completions request, and of a native request.
abbrev pub PlainTools : Value → Type 0
PlainTools v = OnSome (OnItems PlainTool) (get (codes "tools") v)

abbrev pub PlainNativeTools : Value → Type 0
PlainNativeTools v = OnSome (OnItems PlainNativeTool) (get (codes "tools") v)

-- Each text at each of the paths has the property.
abbrev pub Covered : (Bytes → Type 0) → List Access → Value → Type 0
Covered P paths body = All (λ p. Along P p.steps p.leaf body) paths
