-- ===== src/Handler/Handshake.antt =====
-- The handshake from the client's bytes to the server's.
use lurk.Socks5.{as_socks5_const}
use lurk.Socks5.Parsing.{read_handshake_sound}
use lurk.Auth.Selection.{
  answer, select_auth_method-new, select_auth_method-Agreed, contains-collect,
}
use lurk.Socks5.Request.{read_handshake}
use lurk.Socks5.Wire.{read_handshake-encode_handshake, encode_handshake}
use lurk.Stream.Laws.{write_all-Wrote, feed}
use lurk.Handler.Replies.{send_method_lem, send_no_acceptable_method_lem, method_reply}
use lurk.Handler.{send_method, answer_handshake, process_handshake}
use lurk.Stream.{write_all, Stream}
use lurk.Error.{
  continue-pure, no_acceptable_authentication_method, lurk_error, continue-eq-ok, fail, ◌>>◌, ok,
  LurkAuthMethod, M,
}
use lurk.Common.{ap, ◌∙◌, arith, Option, sym, ℕ, List, ◌++◌, ◌≡◌, refl, Bool, true, false}
use lurk.Auth.{
  authenticate_connection, LurkAuthenticator, collect, contains, select_auth_method, MethodSet,
  HashOrder, new as new_authenticator,
}

-- What the server does with a greeting: it picks `None` if that is offered, and otherwise refuses.
abbrev pub handshake_answer : Bool → M Stream (Unit {0})
handshake_answer true = write_all (method_reply 0)
handshake_answer false =
    write_all (method_reply 255) >> fail (lurk_error no_acceptable_authentication_method)

selection :
    (x : LurkAuthenticator × Option LurkAuthMethod) (r : Option LurkAuthMethod)
    → x.1 ≡ r
    → x.0 ≡ record new_authenticator { selected_method = x.1 }
    → x ≡ (record new_authenticator { selected_method = r }, r)
selection (a, o) r p q = cc

answer_handshake_by :
    (debug b : Bool) (s : Stream)
    → answer_handshake debug (record new_authenticator { selected_method = answer b }, answer b) s
      ≡ handshake_answer b s
unfolding answer_handshake authenticate_connection as_socks5_const
answer_handshake_by debug true s =
    continue-pure (send_method debug LurkAuthMethod.none s)
    ∙ send_method_lem debug s LurkAuthMethod.none
answer_handshake_by debug false s = rw (send_no_acceptable_method_lem debug s)

handshake_answer_ok :
    (b : Bool) (s s' : Stream)
    → handshake_answer b s ≡ (ok tt, s')
    → (b ≡ true) × (s'.written ≡ s.written ++ method_reply 0) × (s'.incoming ≡ s.incoming)
handshake_answer_ok true s s' e =
    let (written, kept) = write_all-Wrote (method_reply 0) s s' e in (refl, written, kept)
handshake_answer_ok false s s' e =
    let (_, s₁, e₁, e') = continue-eq-ok (write_all (method_reply 255) s) _ e in
    absurd (ground arith)

module _ (debug : Bool) (order : HashOrder) where
  pub answer_handshake_lem :
      (set : MethodSet) (s : Stream)
      → answer_handshake debug (select_auth_method order new_authenticator set) s
        ≡ handshake_answer (contains set LurkAuthMethod.none) s
  answer_handshake_lem set s =
      let (agreed, recorded) = select_auth_method-Agreed order new_authenticator set in
      let chosen = select_auth_method-new order set in
      ap (λ x. answer_handshake debug x s) (selection _ _ chosen recorded)
      ∙ answer_handshake_by debug (contains set LurkAuthMethod.none) s

  -- On the greeting of a client that offers any list of methods, whatever follows it, the server
  -- takes the greeting from the stream, and then answers `05 00` and succeeds if `None` is among
  -- the methods, and otherwise answers `05 ff` and fails; the order of the hash tables does not
  -- matter.
  pub process_handshake-encode_handshake :
      (ms : List LurkAuthMethod) (rest : List ℕ) (s : Stream)
      → process_handshake debug order (feed (encode_handshake ms ++ rest) s)
        ≡ handshake_answer (contains ms LurkAuthMethod.none) (feed rest s)
  unfolding process_handshake
  process_handshake-encode_handshake ms rest s = rw (
    read_handshake-encode_handshake ms rest s,
    answer_handshake_lem (collect ms) (feed rest s),
    contains-collect ms LurkAuthMethod.none,
  )

  -- A handshake that succeeds was a greeting in the format of RFC 1928 that offers `None`; just its
  -- bytes were taken from the stream, and `05 00` was written in answer.
  pub process_handshake_sound :
      (s s' : Stream)
      → process_handshake debug order s ≡ (ok tt, s')
      → (ms : List LurkAuthMethod) × (s.incoming ≡ encode_handshake ms ++ s'.incoming)
        × (contains ms LurkAuthMethod.none ≡ true)
        × (s'.written ≡ s.written ++ method_reply 0)
  unfolding process_handshake
  process_handshake_sound s s' e =
      let (r, s₁, e₁, e') = continue-eq-ok (read_handshake s) _ e in
      let (ms, took, same) = read_handshake_sound s s₁ r e₁ in
      let answered = sym (answer_handshake_lem r.auth_methods s₁) ∙ e' in
      let (offered, written, kept) = handshake_answer_ok _ s₁ s' answered in
      (
        ms,
        rw kept took.0,
        sym (contains-collect ms LurkAuthMethod.none)
            ∙ sym (ap (λ set. contains set LurkAuthMethod.none) same)
            ∙ offered,
        written ∙ ap (λ t. t.written ++ method_reply 0) took.1,
      )
