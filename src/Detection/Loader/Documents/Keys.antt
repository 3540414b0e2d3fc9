-- ===== src/Detection/Loader/Documents/Keys.antt =====
-- Which keys a mapping of a rule file may have.
use soc_investigation_lab.Common.{
  String, ◌≡◌, refl, Bool, true, false, not, ◌&&◌, ◌||◌, List, [], ◌∷◌, guard, ◌==◌, string_eq,
  arith, ◌∙◌, beq_sym, member, is_unique, all_of, Bool-cases, inl, inr,
}
use soc_investigation_lab.Detection.Loader.Documents.{
  KeyNode, scalar_node, collection_node, unsafe_yaml, key_value, check_keys,
}
use soc_investigation_lab.Detection.Loader.Documents.Safety.{
  is_text_key, key_values, are_new, are_new-nil,
}

swap_tests : (a b c d : Bool) → (not (a || b) && (not c && d)) ≡ (not (a || c) && (not b && d))
swap_tests a b c d = ground arith

are_new-cons :
    (value : String) (seen : List String) (keys : List KeyNode)
    → are_new (value ∷ seen) keys ≡ (not (member value (key_values keys)) && are_new seen keys)
are_new-cons value seen [] = refl
are_new-cons value seen (key ∷ keys) =
    rw (are_new-cons value seen keys, beq_sym value (key_value key))
      (swap_tests (key_value key == value) (member (key_value key) seen)
        (member value (key_values keys)) (are_new seen keys))

unsafe_step :
    (t m n a x u : Bool)
    → (not t || m || n) ≡ true
    → (((t && not m) && a) && ((not n && x) && u)) ≡ false
unsafe_step t m n a x u h = ground (arith, h)

safe_step :
    (t m n a x u w : Bool)
    → (not t || m || n) ≡ false
    → (((t && not m) && a) && ((not n && x) && (w && u))) ≡ (a && ((w && x) && u))
safe_step t m n a x u w h = ground (arith, h)

-- Text keys, new ones, and no two of them the same.
abbrev are_fine : List String → List KeyNode → Bool
are_fine seen nodes =
    all_of is_text_key nodes && (are_new seen nodes && is_unique (key_values nodes))

check_keys-are_fine :
    (seen : List String) (nodes : List KeyNode)
    → check_keys seen nodes ≡ guard (are_fine seen nodes) unsafe_yaml
unfolding check_keys
check_keys-are_fine seen [] = refl
check_keys-are_fine seen (collection_node ∷ nodes) = refl
check_keys-are_fine seen (scalar_node tag value ∷ nodes) =
    let text = tag == "tag:yaml.org,2002:str" in
    let merge = value == "<<" in
    let again = member value seen in
    let texts = all_of is_text_key nodes in
    let new = are_new seen nodes in
    let others = is_unique (key_values nodes) in
    let apart = not (member value (key_values nodes)) in
    elim (Bool-cases (not text || merge || again)) [
      | inl bad ↦ rw (bad, unsafe_step text merge again texts new (apart && others) bad) refl
      | inr fine ↦
          rw (fine, safe_step text merge again texts new others apart fine)
            (check_keys-are_fine (value ∷ seen) nodes ∙ rw (are_new-cons value seen nodes) refl)
    ]

-- The keys of a mapping are accepted exactly if each of them is a plain text other than `<<` and no
-- two of them are the same text; otherwise the mapping is unsafe.
pub check_keys_unique :
    (nodes : List KeyNode)
    → check_keys [] nodes
      ≡ guard (all_of is_text_key nodes && is_unique (key_values nodes)) unsafe_yaml
check_keys_unique nodes = check_keys-are_fine [] nodes ∙ rw (are_new-nil nodes) refl
