-- ===== src/Driver/Serve/Intercepted.antt =====
-- The interceptor of pkg/driver/common/server.go, `logGRPCCallWithTraceID`: a call runs under a new
-- trace identifier, and is logged without its secrets. Making an identifier and `StripSecrets` are
-- parameters, and so are the types of the requests and the answers.
use baiducloud_cce_csi_drive.Base.{
  String, List, [], ◌∷◌, ◌++◌, ◌≡◌, ◌⊎◌, inl, inr, refl, Result, ok, err, if◌then◌else◌,
}
use baiducloud_cce_csi_drive.Base.Int.{ℤ, pos, ltb_ℤ}

-- The lines of the log, with the trace identifier. `T` stands for messages without their secrets.
pub data Line (E T : Type 0) : Type 0 where
  call : (trace_id method : String) → Line E T
  request : (trace_id : String) → T → Line E T
  failed : (trace_id : String) → E → Line E T
  response : (trace_id : String) → T → Line E T

-- `glog.V(level).Infof`
abbrev pub verbose : {L : Type 0} → (verbosity level : ℤ) → L → List L
verbose verbosity level line = if ltb_ℤ verbosity level then [] else line ∷ []

module _ {S E Q A T : Type 0} (new_trace_id : S → String × S) (strip_request : Q → T)
    (strip_response : A → T) (verbosity : ℤ) where
  abbrev outcome : String → Result E A → List (Line E T)
  outcome trace_id (err e) = failed trace_id e ∷ []
  outcome trace_id (ok a) = verbose verbosity (pos 5) (response trace_id (strip_response a))

  -- The answer, with the lines that are logged in their order, and the state.
  unfoldable pub log_grpc_call_with_trace_id :
      (method : String)
      → (handler : String → Q → S → Result E A × S) → Q
      → S
      → (Result E A × List (Line E T)) × S
  log_grpc_call_with_trace_id method handler req s =
      let (id, t) = new_trace_id s in
      let (answer, u) = handler id req t in
      (
        (
          answer,
          verbose verbosity (pos 3) (call id method)
              ++ (verbose verbosity (pos 5) (request id (strip_request req)) ++ outcome id answer),
        ),
        u,
      )

  -- What is logged tells no secrets: two requests that are the same without them, and that are answered
  -- by the same error or by answers that are the same without theirs, leave the same lines.
  pub lines_without_secrets :
      (method : String) (f g : String → Q → S → Result E A × S) (p q : Q) (s : S)
      → strip_request p ≡ strip_request q
      → ((id : String) (t : S)
          → ((e : E) × ((f id p t).0 ≡ err e) × ((g id q t).0 ≡ err e))
            ⊎ ((a b : A) × ((f id p t).0 ≡ ok a)
                × ((g id q t).0 ≡ ok b)
                × (strip_response a ≡ strip_response b)))
      → (log_grpc_call_with_trace_id method f p s).0.1
        ≡ (log_grpc_call_with_trace_id method g q s).0.1
  unfolding log_grpc_call_with_trace_id
  lines_without_secrets method f g p q s same h =
      let (id, t) = new_trace_id s in
      elim (h id t) [
        | inl (e, a, b) ↦ rw (a, b, same) refl
        | inr (x, y, a, b, c) ↦ rw (a, b, same, c) refl
      ]
