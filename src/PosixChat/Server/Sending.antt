-- ===== src/PosixChat/Server/Sending.antt =====
-- What the loop over the places in use sends.
use agh_sys_opy.Prelude.{
  ℕ, zero, suc, ◌≡◌, ap, sym, ◌∙◌, true, List, [], ◌∷◌, ◌++◌, append_assoc, append-nil, map,
  Bool-cases, inl, inr, if◌then◌else◌,
}
use agh_sys_opy.Prelude.Int.{ℤ}
use agh_sys_opy.PosixChat.{Buffer}
use agh_sys_opy.PosixChat.Server.{
  Kernel, Server, Call, sent, is_error, call, delivered, send, send_each,
}

-- The places in use, from `i` on, `n` of them.
abbrev pub in_use : ℕ → ℕ → (ℕ → ℤ) → List ℕ
in_use zero i clients = []
in_use (suc n) i clients =
    let rest = in_use n (suc i) clients in if is_error (clients i) then rest else i ∷ rest

-- The calls that send an array to the places named.
abbrev pub sends : Buffer → (ℕ → ℤ) → List ℕ → List Call
sends m clients is = map (λ i. sent (clients i) m) is

abbrev pub TakesAll : Kernel → Type 0
TakesAll k = (log : List Call) (q : ℤ) → k.takes log q ≡ true

pub send_each-in_use :
    (k : Kernel) (m : Buffer) (n i : ℕ) (s : Server)
    → TakesAll k
    → send_each k m n i s
      ≡ delivered (record s { log = s.log ++ sends m s.clients (in_use n i s.clients) })
unfolding send_each send
send_each-in_use k m zero i s takes =
    ap (λ l. delivered (record s { log = l })) (sym (append-nil s.log))
send_each-in_use k m (suc n) i s takes = elim (Bool-cases (is_error (s.clients i))) [
  | inl e ↦ rw (send_each, e) (send_each-in_use k m n (suc i) s takes)
  | inr e ↦
      rw (send_each, e, send, takes)
        (send_each-in_use k m n (suc i) (call (sent (s.clients i) m) s) takes
          ∙ ap (λ l. delivered (record s { log = l }))
              (append_assoc s.log (sent (s.clients i) m ∷ []) _))
]
