-- ===== src/Connectors/Html/Order.antt =====
-- The searches of a page, and the order of its document.
use billtracker_plugin.Base.{
  ◌≡◌, refl, ap, sym, ◌∙◌, Bool, ◌&&◌, Option, none, some, List, [], ◌∷◌, ◌++◌, Bytes, codes,
  trim_space, first, Bool-cases, inl, inr,
}
use mathlib.Core.Option
use billtracker_plugin.Connectors.Html.{
  Node, node, Nodes, no_more, then_node, attr, is_element, has_class, carries, text_content,
  or_else, find_first_by_class, find_first_in, find_text_by_class, find_text_in, is_input,
  find_hidden_input_value, find_hidden_in,
}

-- The nodes of a tree, each before those below it.
unfoldable mutual
  pub document_order : Node → List Node
  document_order (node k d attrs kids) = node k d attrs kids ∷ documents_order kids

  pub documents_order : Nodes → List Node
  documents_order no_more = []
  documents_order (then_node n ns) = document_order n ++ documents_order ns

abbrev pub input_named : Bytes → Node → Bool
input_named name (node k d attrs kids) = is_input name k d attrs

abbrev pub value_of : Node → Bytes
value_of (node k d attrs kids) = attr attrs (codes "value")

first-append :
    {A : Type 0} (p : A → Bool) (xs ys : List A)
    → first p (xs ++ ys) ≡ or_else (first p xs) (first p ys)
first-append p [] ys = refl
first-append p (x ∷ xs) ys = elim (Bool-cases (p x)) [
  | inl e ↦ rw e
  | inr e ↦ rw e (first-append p xs ys)
]

mutual
  unfolding document_order find_first_by_class

  first_here :
      (class : Bytes) (n : Node)
      → find_first_by_class class n ≡ first (carries class) (document_order n)
  first_here class (node k d attrs kids) =
      elim (Bool-cases (is_element k && has_class attrs class)) [
        | inl e ↦ rw e
        | inr e ↦ rw e (first_there class kids)
      ]

  first_there :
      (class : Bytes) (ns : Nodes)
      → find_first_in class ns ≡ first (carries class) (documents_order ns)
  first_there class no_more = refl
  first_there class (then_node n ns) = rw (
    first-append (carries class) (document_order n) (documents_order ns),
    first_here class n,
    first_there class ns,
  )

map-or_else :
    {A B : Type 0} (f : A → B) (x y : Option A)
    → Option.map f (or_else x y) ≡ or_else (Option.map f x) (Option.map f y)
map-or_else f none y = refl
map-or_else f (some a) y = refl

-- What is searched for as text is the text of the element that is searched for.
abbrev pub trimmed_text : Node → Bytes
trimmed_text n = trim_space (text_content n)

mutual
  unfolding find_first_by_class find_text_by_class

  text_here :
      (class : Bytes) (n : Node)
      → find_text_by_class class n ≡ Option.map trimmed_text (find_first_by_class class n)
  text_here class (node k d attrs kids) =
      elim (Bool-cases (is_element k && has_class attrs class)) [
        | inl e ↦ rw e
        | inr e ↦ rw e (text_there class kids)
      ]

  text_there :
      (class : Bytes) (ns : Nodes)
      → find_text_in class ns ≡ Option.map trimmed_text (find_first_in class ns)
  text_there class no_more = refl
  text_there class (then_node n ns) =
      rw (text_here class n, text_there class ns)
        (sym (map-or_else trimmed_text (find_first_by_class class n) (find_first_in class ns)))

mutual
  unfolding document_order find_hidden_input_value

  input_here :
      (name : Bytes) (n : Node)
      → find_hidden_input_value name n
        ≡ Option.map value_of (first (input_named name) (document_order n))
  input_here name (node k d attrs kids) = elim (Bool-cases (is_input name k d attrs)) [
    | inl e ↦ rw e
    | inr e ↦ rw e (input_there name kids)
  ]

  input_there :
      (name : Bytes) (ns : Nodes)
      → find_hidden_in name ns ≡ Option.map value_of (first (input_named name) (documents_order ns))
  input_there name no_more = refl
  input_there name (then_node n ns) =
      rw
        (
          first-append (input_named name) (document_order n) (documents_order ns),
          input_here name n,
          input_there name ns,
        )
        (sym (map-or_else value_of (first (input_named name) (document_order n)) _))

-- The three searches of a page agree with a look through its nodes in the order of the document:
-- they find the first element with the class, that element's trimmed text, and the value of the
-- first input with the name, and find nothing only where there is no such element.
pub searches_in_document_order :
    (word : Bytes) (n : Node)
    → (find_first_by_class word n ≡ first (carries word) (document_order n))
      × (find_text_by_class word n
          ≡ Option.map trimmed_text (first (carries word) (document_order n)))
      × (find_hidden_input_value word n
          ≡ Option.map value_of (first (input_named word) (document_order n)))
searches_in_document_order word n = (
  first_here word n,
  text_here word n ∙ ap (Option.map trimmed_text) (first_here word n),
  input_here word n,
)
