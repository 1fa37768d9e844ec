-- ===== src/Signature/Tests.antt =====
-- The theorems on signatures at a short flow, whose sides are 0 and 1.
use native.Mathlib.Decide.{ℕ_discrete}
use socle.Signature
use socle.Prelude.{ℕ, ◌≡◌, refl, inl, inr, true, false, none, some, [], ◌∷◌, ◌++◌, arith, nat_key}
use socle.Signature.{
  valid_ok, FlowEntry, Flow, null_range, BaseMatch, simple_search, simple_match, match_text,
  limited, Chain, examine, match_from, match_flow,
}
use socle.Signature.Embeds.{hits, Embeds}
use socle.Signature.Groups.{signature_add-Adds}
use socle.Signature.Joined.{from_side, sent, IsJoined, append-IsJoined}
use socle.Signature.Resume.{match_flow_resumed}
use socle.Signature.Sensors.{Adds}
use socle.Signature.Tree.{SignatureTree, signature_add, IsIndexed}

abbrev hello : FlowEntry ℕ
hello = record { source_ = 0; data_ = 72 ∷ 73 ∷ []; counter_ = 1; validity_ = valid_ok }

abbrev answer : FlowEntry ℕ
answer = record { source_ = 1; data_ = 79 ∷ 75 ∷ []; counter_ = 1; validity_ = valid_ok }

abbrev flow : Flow ℕ
flow = record { flow_queue_ = hello ∷ answer ∷ []; is_stream = true; exchanges = 1 }

abbrev greeting : Chain ℕ
greeting = (0, simple_match (73 ∷ []) 0 0) ∷ (1, simple_match (79 ∷ []) 0 0) ∷ []

matches : match_flow greeting flow [] 0 ≡ some (true, (1, 3) ∷ (0, 2) ∷ [], 2)
unfolding match_flow match_from examine match_text limited simple_match simple_search ℕ_discrete
matches = refl

flow-IsJoined : IsJoined flow
unfolding ℕ_discrete
flow-IsJoined = record { stream = refl; alternates = (refl, tt); sides = inr refl }

append-IsJoined_example :
    let (r, f') = Signature.append flow 0 (7 ∷ []) in
    IsJoined f' × (sent f'.flow_queue_ ≡ sent flow.flow_queue_ ++ from_side 0 (7 ∷ []))
append-IsJoined_example = append-IsJoined flow 0 (7 ∷ []) flow-IsJoined (omega arith) (omega arith)

hello-hits : hits (0, simple_match (72 ∷ []) 0 0) hello ≡ true
unfolding match_text limited simple_match simple_search ℕ_discrete
hello-hits = refl

match_flow_resumed_example :
    match_flow ((0, simple_match (72 ∷ []) 0 0) ∷ []) flow (null_range ∷ []) 0 ≡ none
match_flow_resumed_example =
    match_flow_resumed ((0, simple_match (72 ∷ []) 0 0) ∷ []) flow (null_range ∷ []) 0 0
      (0, simple_match (72 ∷ []) 0 0) hello (answer ∷ []) refl refl refl hello-hits

abbrev behind : BaseMatch
behind = record { match_limits_offset = 1; match_limits_bytes = 0; search_function = λ s. none }

abbrev tree : SignatureTree ℕ ℕ
tree = record { filter_ = λ i. false; sensors_ = λ i. none; name_index = []; group_count = 0 }

tree-IsIndexed : IsIndexed tree
tree-IsIndexed = record {
  below = λ k i h. absurd (cc);
  apart = λ j k i g h. absurd (cc);
  made = λ k i h. absurd (cc);
  room = omega arith;
}

signature_add-Adds_example : Adds tree greeting 5 (signature_add tree greeting 5 true)
signature_add-Adds_example =
    signature_add-Adds tree greeting 5 true tree-IsIndexed (inl (omega arith))
