-- ===== src/Onboard/Transport.antt =====
-- clients/onboard-sync/adapters/graphqltransport/transport.go, with the operations of graphql/ops.go. The HTTP client and
-- encoding/json are parameters.
use maritime_test_lab.Prelude.{
  ℕ, String, Option, none, some, List, [], ◌∷◌, if◌then◌else◌, str_eq, ◌==◌, ◌≡◌, ◌↔◌, refl, arith,
  Option-cases, inl, inr, ap,
}
use maritime_test_lab.Prelude.Int.{ℤ}
use maritime_test_lab.Onboard.Operation.{Operation, kind_update}

-- the texts of create_voyage.graphql and update_voyage.graphql
pub record Documents : Type 0 where
  pub create_voyage : String
  pub update_voyage : String

-- the variables of a mutation; a creation has no version
pub record Variables : Type 0 where
  pub client_request_id : String
  pub origin : String
  pub dest : String
  pub distance_nm : ℤ
  pub fees_minor : ℤ
  pub version : Option ℤ

pub record GraphqlRequest : Type 0 where
  pub query : String
  pub variables : Variables

pub data Error : Type 0 where
  marshal_error request_error send_error read_error decode_error : Error
  bad_status : ℕ → Error
  graphql_error : String → Error

-- what becomes of a post before its deadline
pub data Reply : Type 0 where
  no_request no_answer : Reply
  cut_off : ℕ → Reply
  answered : ℕ → List ℕ → Reply

abbrev pub status_ok : ℕ
status_ok = 200

unfoldable pub query : Documents → Operation → String
query docs op = if str_eq op.kind kind_update then docs.update_voyage else docs.create_voyage

unfoldable pub variables : Operation → Variables
variables op = record {
  client_request_id = op.client_request_id;
  origin = op.origin;
  dest = op.dest;
  distance_nm = op.distance_nm;
  fees_minor = op.fees_minor;
  version = if str_eq op.kind kind_update then some op.version else none;
}

-- the messages of the decoded `errors`
unfoldable pub judge : Option (List String) → Option Error
judge none = some decode_error
judge (some []) = none
judge (some (message ∷ rest)) = some (graphql_error message)

module _ (docs : Documents) (marshal : GraphqlRequest → Option (List ℕ)) (post : List ℕ → Reply)
    (errors_of : List ℕ → Option (List String)) where
  unfoldable pub settle : Reply → Option Error
  unfolding judge
  settle no_request = some request_error
  settle no_answer = some send_error
  settle (cut_off status) = some read_error
  settle (answered status payload) =
      if status == status_ok then judge (errors_of payload) else some (bad_status status)

  -- `none` is a clean ack
  unfoldable pub send : Operation → Option Error
  unfolding query variables settle
  send op = elim (marshal (record { query = query docs op; variables = variables op })) [
    | none ↦ some marshal_error
    | some body ↦ settle (post body)
  ]

  -- how a send is acknowledged
  pub record Acked (op : Operation) : Type 0 where
    pub body : List ℕ
    pub payload : List ℕ
    pub marshalled :
        marshal (record { query = query docs op; variables = variables op }) ≡ some body
    pub replied : post body ≡ answered status_ok payload
    pub clean : errors_of payload ≡ some []

  judge-none : (errors : Option (List String)) → judge errors ≡ none → errors ≡ some []
  unfolding judge
  judge-none none e = cc
  judge-none (some []) e = refl
  judge-none (some (m ∷ rest)) e = cc

  clean_reply :
      (status : ℕ) (payload : List ℕ)
      → settle (answered status payload) ≡ none
      → (status ≡ status_ok) × (errors_of payload ≡ some [])
  unfolding settle
  clean_reply status payload e = ground (arith, judge-none (errors_of payload))

  settle-none :
      (reply : Reply)
      → settle reply ≡ none
      → (payload : List ℕ) × (reply ≡ answered status_ok payload) × (errors_of payload ≡ some [])
  unfolding settle
  settle-none no_request e = cc
  settle-none no_answer e = cc
  settle-none (cut_off n) e = cc
  settle-none (answered status payload) e =
      let (good, clean) = clean_reply status payload e in
      (payload, ap (λ n. answered n payload) good, clean)

  posted :
      (op : Operation) (body : List ℕ)
      → marshal (record { query = query docs op; variables = variables op }) ≡ some body
      → send op ≡ none
      → settle (post body) ≡ none
  unfolding send
  posted op body m e = ground arith

  -- `Send` answers nil exactly when the mutation was posted and answered with status 200 and a body that decodes without GraphQL errors.
  pub send-Acked_iff : (op : Operation) → (send op ≡ none) ↔ Acked op
  unfolding send settle judge
  send-Acked_iff op = (forth, λ a. rw (a.marshalled, send, a.replied, a.clean) refl)
    where
      forth : send op ≡ none → Acked op
      forth e =
          elim (Option-cases
            (marshal (record { query = query docs op; variables = variables op }))) [
              | inl m ↦ ground arith
              | inr (body, m) ↦
                  let (payload, replied, clean) = settle-none (post body) (posted op body m e) in
                  record {
                    body = body;
                    payload = payload;
                    marshalled = m;
                    replied = replied;
                    clean = clean;
                  }
            ]
