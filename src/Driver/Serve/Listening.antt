-- ===== src/Driver/Serve/Listening.antt =====
-- Where a driver that serves listens.
use Prim.Native.String.{◌++◌ as ◌<>◌}
use text.Mathlib.TextPositions.{starts_with-append}
use baiducloud_cce_csi_drive.Base.{
  String, Bool, true, false, List, ◌==◌, starts_with, ◌≡◌, ◌≢◌, ◌⊎◌, subst, ap, ◌∙◌, is_ok, inl,
  inr, arith, eq_iff, Result, ok, err, Result-cases, Bool-cases,
}
use baiducloud_cce_csi_drive.Util.Os.{OsError, is_exist, is_not_exist}
use baiducloud_cce_csi_drive.Util.FilePath.{dir}
use baiducloud_cce_csi_drive.Util.Endpoint.{EndpointError, parse_grpc_endpoint}
use baiducloud_cce_csi_drive.Driver.Serve.{
  Os, Service, registered, listen_address, prepare_socket, serve,
}

-- How the operating system acts: a directory that was made, or was there, exists, and a path that was
-- removed, or was not there, is gone.
pub record IsOs {F : Type 0} (os : Os F) (exists : F → String → Bool) : Type 0 where
  pub made :
      (p : String) (s : F) → (os.mkdir_all p s).0 ≡ ok tt → exists (os.mkdir_all p s).1 p ≡ true
  pub there :
      (p : String) (s : F)
      → (os.mkdir_all p s).0 ≡ err is_exist
      → exists (os.mkdir_all p s).1 p ≡ true
  pub removed :
      (p : String) (s : F) → (os.remove p s).0 ≡ ok tt → exists (os.remove p s).1 p ≡ false
  pub missing :
      (p : String) (s : F)
      → (os.remove p s).0 ≡ err is_not_exist
      → exists (os.remove p s).1 p ≡ false

module _ {F : Type 0} (os : Os F) (exists : F → String → Bool) (L : IsOs os exists) where
  -- A state in which the directory of a socket exists, from which the old socket is removed.
  abbrev pub IsCleared : String → F → Type 0
  IsCleared addr t =
      (u : F) × (exists u (dir addr) ≡ true) × (t ≡ (os.remove addr u).1) × (exists t addr ≡ false)

  -- An answer that the program goes on with.
  abbrev Tolerated : OsError → Result OsError (Unit {0}) → Type 0
  Tolerated e r = (r ≡ ok tt) ⊎ (r ≡ err e)

  prepare_socket-Tolerated :
      (addr : String) (s : F)
      → (prepare_socket os addr s).0 ≡ ok tt
      → let u = (os.mkdir_all (dir addr) s).1 in
        Tolerated is_exist (os.mkdir_all (dir addr) s).0
        × Tolerated is_not_exist (os.remove addr u).0
        × ((prepare_socket os addr s).1 ≡ (os.remove addr u).1)
  unfolding prepare_socket
  prepare_socket-Tolerated addr s h =
      let m = os.mkdir_all (dir addr) s in
      let r = os.remove addr m.1 in
      elim (Result-cases m.0) [
        | inl (_, e) ↦ elim (Result-cases r.0) [
          | inl (_, f) ↦ (inl e, inl f, ground (arith, e, f))
          | inr (is_not_exist, f) ↦ (inl e, inr f, ground (arith, e, f))
          | inr (x, f) ↦ absurd (ground (arith, e, f, h))
        ]
        | inr (is_exist, e) ↦ elim (Result-cases r.0) [
          | inl (_, f) ↦ (inr e, inl f, ground (arith, e, f))
          | inr (is_not_exist, f) ↦ (inr e, inr f, ground (arith, e, f))
          | inr (x, f) ↦ absurd (ground (arith, e, f, h))
        ]
        | inr (x, e) ↦ absurd (ground (arith, e, h))
      ]

  prepare_socket_ok :
      (addr : String) (s : F)
      → (prepare_socket os addr s).0 ≡ ok tt
      → IsCleared addr (prepare_socket os addr s).1
  prepare_socket_ok addr s h =
      let (a, b, e) = prepare_socket-Tolerated addr s h in
      let u = (os.mkdir_all (dir addr) s).1 in
      let there : exists u (dir addr) ≡ true = elim a [
        | inl i ↦ L.made (dir addr) s i
        | inr i ↦ L.there (dir addr) s i
      ] in
      let gone : exists (os.remove addr u).1 addr ≡ false = elim b [
        | inl i ↦ L.removed addr u i
        | inr i ↦ L.missing addr u i
      ] in
      (u, there, e, rw e gone)

  -- The listener was opened for an endpoint: by the protocol and the address of the endpoint, and
  -- for a Unix socket at an absolute path, once its directory was there and no old socket.
  pub data Listened (endpoint : String) : Type 0 where
    tcp :
        {proto addr : String} {t : F}
        → parse_grpc_endpoint endpoint ≡ ok (proto, addr)
        → proto ≢ "unix"
        → (os.listen proto addr t).0 ≡ ok tt
        → Listened endpoint
    unix :
        {addr socket : String} {t : F}
        → parse_grpc_endpoint endpoint ≡ ok ("unix", addr)
        → (socket ≡ addr) ⊎ (socket ≡ "/" <> addr)
        → starts_with socket "/" ≡ true
        → IsCleared socket t
        → (os.listen "unix" socket t).0 ≡ ok tt
        → Listened endpoint

  listen_address-absolute : (addr : String) → starts_with (listen_address "unix" addr) "/" ≡ true
  unfolding listen_address
  listen_address-absolute addr = elim (Bool-cases (starts_with addr "/")) [
    | inl e ↦ ground (arith, e)
    | inr e ↦ ground (arith, e, starts_with-append "/" addr)
  ]

  listen_address_cases :
      (addr : String)
      → (listen_address "unix" addr ≡ addr) ⊎ (listen_address "unix" addr ≡ "/" <> addr)
  unfolding listen_address
  listen_address_cases addr = ground arith

  listen_address_plain :
      (proto addr : String) → (proto == "unix") ≡ false → listen_address proto addr ≡ addr
  unfolding listen_address
  listen_address_plain proto addr h = ground (arith, h)

  -- The rest of `serve` for an endpoint that is parsed, with the outcome of the preparations.
  served :
      (endpoint proto addr : String) (ids cs ns : Bool) (s : F)
      → parse_grpc_endpoint endpoint ≡ ok (proto, addr)
      → is_ok (serve os endpoint ids cs ns s).0 ≡ true
      → Listened endpoint
  unfolding serve
  served endpoint proto addr ids cs ns s e h =
      let a = listen_address proto addr in
      elim (Bool-cases (proto == "unix")) [
        | inr b ↦ elim (Result-cases (os.listen proto a s).0) [
          | inr (x, f) ↦ absurd (ground (arith, e, b, f, h))
          | inl (_, f) ↦
              let plain : a ≡ addr = listen_address_plain proto addr b in
              tcp e (ground (arith, b, eq_iff proto "unix"))
                (subst (λ x. (os.listen proto x s).0 ≡ ok tt) plain f)
        ]
        | inl b ↦
            let p = (eq_iff proto "unix").0 b in
            let t = (prepare_socket os a s).1 in
            elim (Result-cases (prepare_socket os a s).0) [
              | inr (x, g) ↦ absurd (ground (arith, e, b, g, h))
              | inl (_, g) ↦ elim (Result-cases (os.listen proto a t).0) [
                | inr (x, f) ↦ absurd (ground (arith, e, b, g, f, h))
                | inl (_, f) ↦
                    let q = ap (λ x. listen_address x addr) p in
                    unix (e ∙ ap (λ x. ok (x, addr)) p) (listen_address_cases addr)
                      (listen_address-absolute addr)
                      (subst (λ x. IsCleared x (prepare_socket os x s).1) q
                        (prepare_socket_ok a s g))
                      (subst
                        (λ x.
                          (os.listen x (listen_address x addr)
                            (prepare_socket os (listen_address x addr) s).1).0
                          ≡ ok tt)
                        p f)
              ]
            ]
      ]

  serve_refused :
      (endpoint : String) (ids cs ns : Bool) (s : F) {services : List Service} {x : EndpointError}
      → parse_grpc_endpoint endpoint ≡ err x
      → (serve os endpoint ids cs ns s).0 ≢ ok services
  unfolding serve
  serve_refused endpoint ids cs ns s e h = ground (arith, e, h)

  serve-registered :
      (endpoint : String) (ids cs ns : Bool) (s : F) {services : List Service}
      → (serve os endpoint ids cs ns s).0 ≡ ok services
      → services ≡ registered ids cs ns
  unfolding serve
  serve-registered endpoint ids cs ns s h = ground (arith, h)

  -- Over an operating system that acts as `IsOs` says, a server that goes on to serve has the
  -- registrations of the servers that are not nil, and its listener was opened for the endpoint: for
  -- a Unix socket at an absolute path, in a directory that was there, and from which an old socket
  -- had been removed.
  pub serve_ok :
      (endpoint : String) (ids cs ns : Bool) (s : F) {services : List Service}
      → (serve os endpoint ids cs ns s).0 ≡ ok services
      → Listened endpoint × (services ≡ registered ids cs ns)
  serve_ok endpoint ids cs ns s h = elim (Result-cases (parse_grpc_endpoint endpoint)) [
    | inr (x, e) ↦ absurd (serve_refused endpoint ids cs ns s e h)
    | inl ((proto, addr), e) ↦ (
      served endpoint proto addr ids cs ns s e (ground (arith, h)),
      serve-registered endpoint ids cs ns s h,
    )
  ]
