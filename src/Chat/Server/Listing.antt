-- ===== src/Chat/Server/Listing.antt =====
-- The list of clients that `handle_list` sends.
use agh_sys_opy.Prelude.{
  ℕ, zero, suc, ◌+◌, ◌*◌, ◌≤◌, ◌<◌, ◌≡◌, refl, Bool, true, false, List, [], ◌∷◌, ◌++◌, map,
  append-nil, append_assoc, length, length-append, some, ltb, if◌then◌else◌, arith, Bool-cases, inl,
  inr, ap, lt→ltb, ◌∙◌,
}
use agh_sys_opy.Prelude.Int.{ℤ, pos}
use agh_sys_opy.Text.{print_decimal}
use agh_sys_opy.Text.Words.{listing, read_ids, read_ids-listing, length-print_decimal}
use agh_sys_opy.Chat.{Kernel, msgsnd, msg_size}
use agh_sys_opy.Chat.Server.{
  Server, Outcome, qarray_size, is_zero, append_id, list_ids, list_feedback, send_list, handle_list,
  finish, send, call,
}

-- The places in use among the `n` from `i` on, in order.
abbrev pub registered : ℕ → ℕ → (ℕ → ℤ) → List ℕ
registered zero i clients = []
registered (suc n) i clients =
    let later = registered n (suc i) clients in if is_zero (clients i) then later else i ∷ later

length-registered : (n i : ℕ) (clients : ℕ → ℤ) → length (registered n i clients) ≤ n
length-registered zero i clients = omega arith
length-registered (suc n) i clients = ground (arith, length-registered n (suc i) clients)

-- Each place adds at most three bytes, so the list is never too long.
append_id-fits :
    (i : ℕ) (client : ℤ) (content : List ℕ)
    → i < 100
    → length content ≤ 3 * i
    → (more : List ℕ) × (append_id i client content ≡ some more)
      × (length more ≤ 3 * suc i)
      × (more ≡ (if is_zero client then content else content ++ (print_decimal i ++ (b' ' ∷ []))))
unfolding append_id
append_id-fits i client content h fits = elim (Bool-cases (is_zero client)) [
  | inl e ↦ (content, rw e refl, omega arith, rw e refl)
  | inr e ↦ (
    content ++ (print_decimal i ++ (b' ' ∷ [])),
    rw (e, short) refl,
    omega (arith, sizes, length-print_decimal i h),
    rw e refl,
  )
]
  where
    sizes :
        length (content ++ (print_decimal i ++ (b' ' ∷ [])))
        ≡ length content + (length (print_decimal i) + 1)
    sizes =
        length-append content (print_decimal i ++ (b' ' ∷ []))
        ∙ ap (λ x. length content + x) (length-append (print_decimal i) (b' ' ∷ []))

    short : ltb msg_size (length content + length (print_decimal i ++ (b' ' ∷ [])) + 1) ≡ false
    short = ground (arith, length-append (print_decimal i) (b' ' ∷ []), length-print_decimal i h)

-- A place in use stands in the list with a blank behind it.
add_place : Bool → ℕ → List ℕ → List ℕ
add_place used i content = if used then content else content ++ (print_decimal i ++ (b' ' ∷ []))

listing-registered :
    (n i : ℕ) (clients : ℕ → ℤ) (content : List ℕ)
    → add_place (is_zero (clients i)) i content ++ listing (registered n (suc i) clients)
      ≡ content ++ listing (registered (suc n) i clients)
unfolding add_place
listing-registered n i clients content = elim (Bool-cases (is_zero (clients i))) [
  | inl e ↦ rw e refl
  | inr e ↦ rw (e, append_assoc, append_assoc) refl
]

list_ids_next :
    (n i : ℕ) (clients : ℕ → ℤ) (content more : List ℕ)
    → append_id i (clients i) content ≡ some more
    → list_ids (suc n) i clients content ≡ list_ids n (suc i) clients more
unfolding list_ids
list_ids_next n i clients content more e = rw (list_ids, e) refl

list_ids-listing :
    (n i : ℕ) (clients : ℕ → ℤ) (content : List ℕ)
    → i + n ≤ 100
    → length content ≤ 3 * i
    → list_ids n i clients content ≡ some (content ++ listing (registered n i clients))
unfolding list_ids add_place
list_ids-listing zero i clients content h fits = rw append-nil refl
list_ids-listing (suc n) i clients content h fits =
    let (more, e, fits', eq) = append_id-fits i (clients i) content (omega arith) fits in
    list_ids_next n i clients content more e
    ∙ list_ids-listing n (suc i) clients more (omega arith) fits'
    ∙ ap some (
        ap (λ s. s ++ listing (registered n (suc i) clients)) eq
        ∙ listing-registered n i clients content)

-- The answer to LIST, at a kernel that takes it: the client that asks is sent one message, and from
-- its content the numbers of the places in use are read, in order.
pub handle_list-registered :
    (k : Kernel) (i : ℕ) (s : Server)
    → i < qarray_size
    → k.takes s.log (s.clients i) ≡ true
    → (content : List ℕ) × (handle_list k (pos i) s
        ≡ Outcome.running (call (msgsnd (s.clients i) (list_feedback content)) s))
      × (read_ids qarray_size content ≡ map pos (registered qarray_size 0 s.clients))
unfolding handle_list send_list finish send
handle_list-registered k i s h takes = (
  listing (registered qarray_size 0 s.clients),
  rw
      (
        handle_list,
        list_ids-listing qarray_size 0 s.clients [] (omega arith) (omega arith),
        send_list,
        lt→ltb i qarray_size h,
        finish,
        send,
        takes,
      )
      refl,
  read_ids-listing qarray_size (registered qarray_size 0 s.clients)
      (length-registered qarray_size 0 s.clients),
)
