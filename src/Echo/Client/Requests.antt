-- ===== src/Echo/Client/Requests.antt =====
-- A request of the echo client, on its way to the server and back.
use getty.Common.{
  ℕ, ◌+◌, ◌^◌, ◌≤◌, ◌<◌, ◌≡◌, refl, Option, none, some, [], ◌∷◌, ◌++◌, length, append-nil,
  Option-cases, inl, inr, u32, arith,
}
use getty.Errors.{Error}
use getty.Connection.Net.{Bytes}
use getty.Echo.{Package, marshal, read}
use getty.Echo.RoundTrip.{IsPackage}
use getty.Echo.Batches.{read-marshal}
use getty.Echo.Server.Answers.{replies, replies-stream}
use getty.Echo.Client.{EchoClient, request, send_request}

pub request-IsPackage :
    (command log_id sequence : ℕ) (body : Bytes)
    → command ≤ 1
    → sequence < 2 ^ 32
    → length body ≤ 255
    → IsPackage (request command log_id sequence body)
unfolding request
request-IsPackage command log_id sequence body c q l = record {
  header = record {
    magic = omega arith;
    log_id = omega arith;
    sequence = q;
    service_id = omega arith;
    command = omega (arith, c);
    code = omega arith;
    len = omega arith;
  };
  magic = refl;
  short = l;
  len = omega (arith, l);
}

pub request-IsCommand :
    (command log_id sequence : ℕ) (body : Bytes)
    → command ≤ 1
    → (request command log_id sequence body).head.command ≤ 1
unfolding request
request-IsCommand command log_id sequence body c = c

send_request-request :
    (write_pkg : Package → Option Error) (command log_id s : ℕ) (body : Bytes) (c : EchoClient)
    → (send_request write_pkg command log_id body s c).0
      ≡ request command log_id (u32 (c.req_id + 1)) body
unfolding send_request
send_request-request write_pkg command log_id s body c =
    elim (Option-cases (write_pkg (request command log_id (u32 (c.req_id + 1)) body))) [
      | inl n ↦ ground (arith, n)
      | inr (e, n) ↦ ground (arith, n)
    ]

answered :
    (p : Package) (more : Bytes)
    → IsPackage p
    → p.head.command ≤ 1
    → read (replies (p ∷ []) ++ more) ≡ (some p, length (marshal p), none)
answered p more v h =
    rw (replies-stream (p ∷ []) (h, tt), append-nil (marshal p)) (read-marshal p more v)

-- What `heartbeat` and `echo` send arrives as it was made, with the next number of the client: the
-- server reads the request from the bytes that `Write` gives, whatever follows them, and the
-- client reads the same request from the bytes that the server answers. The command is one of the
-- two, and the string has at most 255 bytes.
pub send_request-returns :
    (write_pkg : Package → Option Error) (command log_id s : ℕ) (body more : Bytes) (c : EchoClient)
    → command ≤ 1
    → length body ≤ 255
    → let p = (send_request write_pkg command log_id body s c).0 in
      (read (marshal p ++ more) ≡ (some p, length (marshal p), none))
      × (read (replies (p ∷ []) ++ more) ≡ (some p, length (marshal p), none))
      × (p.body ≡ body)
      × (p.head.sequence ≡ u32 (c.req_id + 1))
send_request-returns write_pkg command log_id s body more c h l =
    let q = u32 (c.req_id + 1) in
    let v = request-IsPackage command log_id q body h (omega arith) l in
    rw (send_request-request write_pkg command log_id s body c) (
      read-marshal (request command log_id q body) more v,
      answered (request command log_id q body) more v (request-IsCommand command log_id q body h),
      unfold request in refl,
      unfold request in refl,
    )
