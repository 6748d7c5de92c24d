-- ===== src/Link/Injection.antt =====
-- What a newline in an argument does over TCP, where the SDK does not escape it.
use cuttle_db.Prelude.{
  ℕ, [], ◌∷◌, ◌++◌, append_assoc, ◌≡◌, refl, ap, ◌∙◌, arith, inl, Lacks, Text, text,
}
use cuttle_db.Client.Exec.{lift, continue-state}
use cuttle_db.Client.OneLine.{words-Lacks}
use cuttle_db.Client.Queries.{find, find_command}
use cuttle_db.Client.Send.{send, send-state, words}
use cuttle_db.Link.{Server, IsServer, serve, await_line}
use cuttle_db.Link.Tcp.{Network, Ready, tcp_link, conclude}
use cuttle_db.Transport.Tcp.Pipeline.{send_lem}
use cuttle_db.Link.Tcp.Refines.{packet, conclude_lem}
use cuttle_db.Number.{is_digit, decimal}
use cuttle_db.Number.RoundTrip.{decimal-Lacks}
use cuttle_db.Text.{join}
use cuttle_db.Transport.Router.{request}
use cuttle_db.Transport.Tcp.{Tcp, write}
use cuttle_db.Wire.Results.{parse_ids}

find_command-append :
    (hid tid col : ℕ) (v w : Text)
    → find_command hid tid col (v ++ w) ≡ find_command hid tid col v ++ w
unfolding find_command words join
find_command-append hid tid col v w = simp append_assoc refl

find_command-Lacks :
    (hid tid col : ℕ) (v : Text) → Lacks b'\n' v → Lacks b'\n' (find_command hid tid col v)
unfolding find_command is_digit
find_command-Lacks hid tid col v h =
    words-Lacks b'\n' (text "FIND" ∷ decimal hid ∷ decimal tid ∷ decimal col ∷ v ∷ []) (inl refl) (
      omega arith,
      (
        decimal-Lacks b'\n' hid refl,
        (decimal-Lacks b'\n' tid refl, (decimal-Lacks b'\n' col refl, (h, tt))),
      ),
    )

module _ {S : Type 0} (v : Server S) (h : IsServer v) (n : Network) where
  -- A command with a newline in it is two.
  send-two :
      (first second : Text) (t : Tcp) (s : S)
      → Ready t
      → Lacks b'\n' first
      → Lacks b'\n' second
      → ((tcp_link v n).send (first ++ b'\n' ∷ second) (t, s)).1.1
        ≡ (v.answer second (v.answer first s).1).1
  unfolding tcp_link serve
  send-two first second t s y p q =
      let cmd = first ++ b'\n' ∷ second in
      ap (λ (sent : ℕ × Tcp). (conclude v n await_line t sent s).1.1) (send_lem cmd t y.connected)
      ∙ ap (λ out. out.1.1)
          (conclude_lem v h n await_line t (request t.router).1 (write (cmd ++ b'\n' ∷ []) ∷ [])
            (first ∷ second ∷ []) t.router.created s y.empty
            (unfold join in packet first (second ∷ []) (p, (q, tt))))

  -- `find` does not escape the value: over TCP, what stands behind a newline in it is a command of
  -- its own, which the server carries out after the lookup, whatever it is, if it holds no further
  -- newline.
  pub find-two :
      (hid tid col : ℕ) (value command : Text) (t : Tcp) (s : S)
      → Ready t
      → Lacks b'\n' value
      → Lacks b'\n' command
      → (find (tcp_link v n) hid tid col (value ++ b'\n' ∷ command) (t, s)).1.1
        ≡ (v.answer command (v.answer (find_command hid tid col value) s).1).1
  unfolding find
  find-two hid tid col value command t s y p q =
      let link = tcp_link v n in
      let cmd = find_command hid tid col (value ++ b'\n' ∷ command) in
      let (r, state) = send link cmd (t, s) in
      ap (λ (out : Tcp × S). out.1)
        (continue-state r (λ body. lift (parse_ids (text "find result") body)) state (λ body. refl)
          ∙ send-state link cmd (t, s))
      ∙ ap (λ (c : Text). (link.send c (t, s)).1.1)
          (find_command-append hid tid col value (b'\n' ∷ command))
      ∙ send-two (find_command hid tid col value) command t s y
          (find_command-Lacks hid tid col value p) q
