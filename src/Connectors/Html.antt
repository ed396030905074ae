-- ===== src/Connectors/Html.antt =====
-- The search of a vendor's page, which internal/connectors/billeriq/billeriq.go and columbiagaspa.go
-- each have. A page is the tree that golang.org/x/net/html makes of it.
pub mod Order
use billtracker_plugin.Base.{
  ℕ, Bool, true, false, ◌&&◌, Option, none, some, List, [], ◌∷◌, ◌++◌, reverse, Bytes, codes, same,
  is_empty, is_space, trim_space, exists, if◌then◌else◌,
}

-- `html.NodeType`, as far as the search looks at it.
pub data NodeType : Type 0 where
  element text_node other_node : NodeType

-- A node's type, data, attributes and children; `FirstChild` and `NextSibling` walk the children.
mutual
  pub data Node : Type 0 where
    node : NodeType → Bytes → List (Bytes × Bytes) → Nodes → Node

  pub data Nodes : Type 0 where
    no_more : Nodes
    then_node : Node → Nodes → Nodes

-- `attr`: the value of the first attribute with the key.
unfoldable pub attr : List (Bytes × Bytes) → Bytes → Bytes
attr [] key = []
attr ((k, v) ∷ rest) key = let other = attr rest key in if same k key then v else other

-- The fields of a text behind a word that has begun, whose bytes are in reverse.
unfoldable pub fields_behind : Bytes → Bytes → List Bytes
fields_behind word [] = if is_empty word then [] else reverse word ∷ []
fields_behind word (c ∷ s) =
    let ended = fields_behind [] s in
    let longer = fields_behind (c ∷ word) s in
    if is_space c then (if is_empty word then ended else reverse word ∷ ended) else longer

-- `strings.Fields`.
abbrev pub fields : Bytes → List Bytes
fields s = fields_behind [] s

abbrev pub is_element : NodeType → Bool
is_element element = true
is_element _ = false

-- `hasClass`.
abbrev pub has_class : List (Bytes × Bytes) → Bytes → Bool
has_class attrs class = exists (λ c. same c class) (fields (attr attrs (codes "class")))

abbrev pub carries : Bytes → Node → Bool
carries class (node k d attrs kids) = is_element k && has_class attrs class

abbrev own_text : NodeType → Bytes → Bytes
own_text text_node d = d
own_text _ d = []

-- `textContent`.
unfoldable mutual
  pub text_content : Node → Bytes
  text_content (node k d attrs kids) = own_text k d ++ texts_content kids

  pub texts_content : Nodes → Bytes
  texts_content no_more = []
  texts_content (then_node n ns) = text_content n ++ texts_content ns

abbrev pub or_else : {A : Type 0} → Option A → Option A → Option A
or_else none other = other
or_else (some a) other = some a

-- `findFirstByClass`.
unfoldable mutual
  pub find_first_by_class : Bytes → Node → Option Node
  find_first_by_class class (node k d attrs kids) =
      let inside = find_first_in class kids in
      if is_element k && has_class attrs class then some (node k d attrs kids) else inside

  pub find_first_in : Bytes → Nodes → Option Node
  find_first_in class no_more = none
  find_first_in class (then_node n ns) =
      or_else (find_first_by_class class n) (find_first_in class ns)

-- `findTextByClass`.
unfoldable mutual
  pub find_text_by_class : Bytes → Node → Option Bytes
  find_text_by_class class (node k d attrs kids) =
      let inside = find_text_in class kids in
      if is_element k && has_class attrs class
      then some (trim_space (text_content (node k d attrs kids)))
      else inside

  pub find_text_in : Bytes → Nodes → Option Bytes
  find_text_in class no_more = none
  find_text_in class (then_node n ns) = or_else (find_text_by_class class n) (find_text_in class ns)

abbrev pub is_input : Bytes → NodeType → Bytes → List (Bytes × Bytes) → Bool
is_input name k d attrs =
    is_element k && same d (codes "input") && same (attr attrs (codes "name")) name

-- `findHiddenInputValue`.
unfoldable mutual
  pub find_hidden_input_value : Bytes → Node → Option Bytes
  find_hidden_input_value name (node k d attrs kids) =
      let inside = find_hidden_in name kids in
      if is_input name k d attrs then some (attr attrs (codes "value")) else inside

  pub find_hidden_in : Bytes → Nodes → Option Bytes
  find_hidden_in name no_more = none
  find_hidden_in name (then_node n ns) =
      or_else (find_hidden_input_value name n) (find_hidden_in name ns)
