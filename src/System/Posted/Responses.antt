-- ===== src/System/Posted/Responses.antt =====
-- What the response of a mutation shows.
use maritime_test_lab.Prelude.Int.{ℤ}
use maritime_test_lab.Prelude.{String, Option, some, ◌≡◌, refl}
use maritime_test_lab.Gateway.Resolvers.{Voyage, CreateVoyagePayload}
use maritime_test_lab.Gateway.Schema.Object.{
  Marshaler, text, int, boolean, object, no_entries, entry, Runtime, collect, voyage_value,
  marshal_voyage, payload_value, marshal_payload, voyage_client_request_id, voyage_origin,
  voyage_dest, voyage_version, voyage_estimate_minor, payload_voyage,
  payload_provisional_estimate_minor, payload_estimate_pending,
}
use maritime_test_lab.System.Posted.{
  created_leaves, create_voyage_selections, update_voyage_selections,
}

-- What gqlgen documents of a field whose resolver reads a value: it is marshalled.
pub record Plain {S : Type 0} (runtime : Runtime S) : Type 1 where
  pub marshals :
      {A : Type 0} (a : A) (m : A → Option Marshaler) (x : Marshaler)
      → m a ≡ some x
      → runtime.plain a m ≡ x

module _ {S : Type 0} (runtime : Runtime S) (plain : Plain runtime) where
  read_text : (t : String) → runtime.plain t (λ x. some (text x)) ≡ text t
  read_text t = plain.marshals t (λ x. some (text x)) (text t) refl

  read_int : (n : ℤ) → runtime.plain n (λ x. some (int x)) ≡ int n
  read_int n = plain.marshals n (λ x. some (int x)) (int n) refl

  -- what the device selects of a created voyage
  abbrev pub shown_voyage : Voyage → Marshaler
  shown_voyage v = object (
      entry "clientRequestId" (text v.client_request_id) (
        entry "origin" (text v.origin) (
          entry "dest" (text v.dest) (
            entry "version" (int v.version)
              (entry "estimateMinor" (int v.estimate_minor) no_entries)))))

  pub shown : (v : Voyage) → marshal_voyage runtime created_leaves v ≡ some (shown_voyage v)
  unfolding marshal_voyage collect voyage_value voyage_client_request_id voyage_origin voyage_dest
      voyage_version voyage_estimate_minor
  shown v =
      rw
        (
          read_text v.client_request_id,
          read_text v.origin,
          read_text v.dest,
          read_int v.version,
          read_int v.estimate_minor,
        )
        refl

  -- The response to the device's creation shows the voyage that the resolver answered, the provisional estimate and whether the estimate is pending, and is never null.
  pub create_response :
      (p : CreateVoyagePayload)
      → marshal_payload runtime create_voyage_selections p
        ≡ some (
            object (
              entry "voyage" (shown_voyage p.voyage) (
                entry "provisionalEstimateMinor"
                  (int p.provisional_estimate_minor)
                  (entry "estimatePending" (boolean p.estimate_pending) no_entries))))
  unfolding marshal_payload collect payload_value payload_voyage payload_provisional_estimate_minor
      payload_estimate_pending
  create_response p =
      rw
        (
          plain.marshals p.voyage (marshal_voyage runtime created_leaves) (shown_voyage p.voyage)
              (shown p.voyage),
          read_int p.provisional_estimate_minor,
          plain.marshals p.estimate_pending (λ x. some (boolean x)) (boolean p.estimate_pending)
              refl,
        )
        refl

  -- The response to the device's update shows the id, the version and the estimate of the voyage that the resolver answered, and is never null.
  pub update_response :
      (v : Voyage)
      → marshal_voyage runtime update_voyage_selections v
        ≡ some (
            object (
              entry "clientRequestId" (text v.client_request_id) (
                entry "version"
                  (int v.version)
                  (entry "estimateMinor" (int v.estimate_minor) no_entries))))
  unfolding marshal_voyage collect voyage_value voyage_client_request_id voyage_version
      voyage_estimate_minor
  update_response v =
      rw (read_text v.client_request_id, read_int v.version, read_int v.estimate_minor) refl
