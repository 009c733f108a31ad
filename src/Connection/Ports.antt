-- ===== src/Connection/Ports.antt =====
-- Rewriting the connection document, reading it back, and restoring it.
use freebsd_laboratory.Base.{
  List, [], ◌∷◌, Option, none, some, ◌≡◌, refl, sym, ◌∙◌, ap, if◌then◌else◌, arith, All,
}
use freebsd_laboratory.Base.Int.{ℤ}
use freebsd_laboratory.Base.Text.{Text, text, eq_text, eq_text_iff}
use freebsd_laboratory.Base.Result.{Result, ok, err}
use freebsd_laboratory.Evidence.Json.{
  Json, Members, int, str, end, get, put, get-put, null, bool, real, array, object,
}
use freebsd_laboratory.Connection.{
  connection_ports, put_ports, connection_port_fields, rewrite_document, restore_document,
  validate_port_sequence, ip_key, read_ports, unique_ports, valid_port, prepend, restored_ports,
  restored_ip,
}

-- What stands under a key after the ports are put.
abbrev found : Text → List Text → List ℤ → Option Json → Option Json
found k (field ∷ fields) (p ∷ ps) o =
    found k fields ps (if eq_text k field then some (int p) else o)
found k _ _ o = o

get-put_ports :
    (k : Text) (fields : List Text) (ps : List ℤ) (d : Members)
    → get k (put_ports fields ps d) ≡ found k fields ps (get k d)
unfolding put_ports
get-put_ports k [] ps d = refl
get-put_ports k (field ∷ fields) [] d = refl
get-put_ports k (field ∷ fields) (p ∷ ps) d =
    get-put_ports k fields ps (put field (int p) d)
    ∙ ap (found k fields ps) (get-put field k (int p) d)

-- Reading the ports looks at the five fields only.
read_ports-agree :
    (fields : List Text) (m n : Members)
    → All (λ f. get f m ≡ get f n) fields
    → read_ports fields m ≡ read_ports fields n
unfolding read_ports
read_ports-agree [] m n h = refl
read_ports-agree (f ∷ fields) m n (e, h) =
    ap (λ o. prepend (valid_port f o) (read_ports fields m)) e
    ∙ ap (prepend (valid_port f (get f n))) (read_ports-agree fields m n h)

-- Every field is put.
fields_agree :
    (a b c d e : ℤ) (m n : Members)
    → let ps = a ∷ b ∷ c ∷ d ∷ e ∷ [] in
      All
        (λ f.
          get f (put_ports connection_port_fields ps m)
          ≡ get f (put_ports connection_port_fields ps n))
        connection_port_fields
unfolding connection_port_fields
fields_agree a b c d e m n =
    let ps : List ℤ = a ∷ b ∷ c ∷ d ∷ e ∷ [] in
    let both : (f : Text)
        → found f connection_port_fields ps (get f m) ≡ found f connection_port_fields ps (get f n)
        → get f (put_ports connection_port_fields ps m)
          ≡ get f (put_ports connection_port_fields ps n) =
      λ f same.
        get-put_ports f connection_port_fields ps m
        ∙ same
        ∙ sym (get-put_ports f connection_port_fields ps n) in
    (
      both (text "shell_port") refl,
      (
        both (text "iopub_port") refl,
        (
          both (text "stdin_port") refl,
          (both (text "control_port") refl, (both (text "hb_port") refl, tt)),
        ),
      ),
    )

-- Reading the ports of a document that was rewritten for five ports gives what validating those
-- ports gives: the ports themselves where they are distinct and in range, and else the same error.
connection_ports-rewrite_document :
    (bind_ip : Text) (a b c d e : ℤ) (document : Members)
    → let ps = a ∷ b ∷ c ∷ d ∷ e ∷ [] in
      connection_ports (rewrite_document bind_ip ps document) ≡ validate_port_sequence ps
unfolding connection_ports rewrite_document validate_port_sequence
connection_ports-rewrite_document bind_ip a b c d e document = ap unique_ports (
    read_ports-agree connection_port_fields _ _
      (fields_agree a b c d e (put ip_key (str bind_ip) document) end))

valid_port_sound : (f : Text) (o : Option Json) (p : ℤ) → valid_port f o ≡ ok p → o ≡ some (int p)
unfolding valid_port
valid_port_sound f (some (int q)) p h = ground arith
valid_port_sound f none p h = absurd cc
valid_port_sound f (some null) p h = absurd cc
valid_port_sound f (some (bool b)) p h = absurd cc
valid_port_sound f (some (real t)) p h = absurd cc
valid_port_sound f (some (str t)) p h = absurd cc
valid_port_sound f (some (array xs)) p h = absurd cc
valid_port_sound f (some (object d)) p h = absurd cc

pub prepend_sound :
    (r : Result ℤ) (rest : Result (List ℤ)) (ps : List ℤ)
    → prepend r rest ≡ ok ps
    → (p : ℤ) × (qs : List ℤ) × (r ≡ ok p) × (rest ≡ ok qs) × (ps ≡ p ∷ qs)
unfolding prepend
prepend_sound (ok p) (ok qs) ps h = (p, qs, refl, refl, ground arith)
prepend_sound (ok p) (err e) ps h = absurd cc
prepend_sound (err e) rest ps h = absurd cc

-- Putting back the ports that were read changes nothing.
found-read :
    (k : Text) (fields : List Text) (d : Members) (ps : List ℤ)
    → read_ports fields d ≡ ok ps
    → found k fields ps (get k d) ≡ get k d
unfolding read_ports
found-read k [] d ps h = refl
found-read k (f ∷ fields) d ps h =
    let q = prepend_sound (valid_port f (get f d)) (read_ports fields d) ps h in
    let at = valid_port_sound f (get f d) q.0 q.2 in
    rw q.4 (
      ap (found k fields q.1) (ground (arith, at, eq_text_iff k f)) ∙ found-read k fields d q.1 q.3)

pub unique_ports_sound : (r : Result (List ℤ)) (ps : List ℤ) → unique_ports r ≡ ok ps → r ≡ ok ps
unfolding unique_ports
unique_ports_sound (ok qs) ps h = ground arith
unique_ports_sound (err e) ps h = absurd cc

-- The last ports that are put count, and between them the address.
found-over :
    (k ip bind : Text) (a b c d e a' b' c' d' e' : ℤ) (o : Option Json)
    → o ≡ (if eq_text k ip_key then some (str ip) else o)
    → found k connection_port_fields (a ∷ b ∷ c ∷ d ∷ e ∷ []) o ≡ o
    → found k connection_port_fields (a ∷ b ∷ c ∷ d ∷ e ∷ []) (
        if eq_text k ip_key
        then some (str ip)
        else found k connection_port_fields
            (a' ∷ b' ∷ c' ∷ d' ∷ e' ∷ [])
            (if eq_text k ip_key then some (str bind) else o))
      ≡ o
unfolding connection_port_fields
found-over k ip bind a b c d e a' b' c' d' e' o h g = ground (arith, h, g)

agree_everywhere :
    (fields : List Text) (m n : Members)
    → ((k : Text) → get k m ≡ get k n)
    → read_ports fields m ≡ read_ports fields n
unfolding read_ports
agree_everywhere [] m n h = refl
agree_everywhere (f ∷ fields) m n h =
    ap (λ o. prepend (valid_port f o) (read_ports fields m)) (h f)
    ∙ ap (prepend (valid_port f (get f n))) (agree_everywhere fields m n h)

-- Five ports that a document has are a valid sequence.
validate-read :
    (a b c d e : ℤ) (document : Members)
    → connection_ports document ≡ ok (a ∷ b ∷ c ∷ d ∷ e ∷ [])
    → validate_port_sequence (a ∷ b ∷ c ∷ d ∷ e ∷ []) ≡ ok (a ∷ b ∷ c ∷ d ∷ e ∷ [])
unfolding validate_port_sequence connection_ports
validate-read a b c d e document h =
    let ps : List ℤ = a ∷ b ∷ c ∷ d ∷ e ∷ [] in
    let read = unique_ports_sound (read_ports connection_port_fields document) ps h in
    ap unique_ports (
      read_ports-agree connection_port_fields _ _ (fields_agree a b c d e end document)
      ∙ agree_everywhere connection_port_fields (put_ports connection_port_fields ps document)
          document
          (λ k.
            get-put_ports k connection_port_fields ps document
            ∙ found-read k connection_port_fields document ps read))
    ∙ h

-- Restoring a rewritten document, with the address and the ports that it had, gives each of its
-- keys the value that it had before, whatever ports were put in between.
pub restore_document-rewrite_document :
    (ip bind k : Text) (a b c d e a' b' c' d' e' : ℤ) (document : Members)
    → get ip_key document ≡ some (str ip)
    → connection_ports document ≡ ok (a ∷ b ∷ c ∷ d ∷ e ∷ [])
    → get k (
        restore_document
          (some ip)
          (a ∷ b ∷ c ∷ d ∷ e ∷ [])
          (rewrite_document bind (a' ∷ b' ∷ c' ∷ d' ∷ e' ∷ []) document))
      ≡ get k document
unfolding restore_document rewrite_document restored_ip restored_ports
restore_document-rewrite_document ip bind k a b c d e a' b' c' d' e' document hip hports =
    let ps : List ℤ = a ∷ b ∷ c ∷ d ∷ e ∷ [] in
    let qs : List ℤ = a' ∷ b' ∷ c' ∷ d' ∷ e' ∷ [] in
    rw
      (
        validate-read a b c d e document hports,
        get-put_ports k connection_port_fields ps (
            put ip_key (str ip)
              (put_ports connection_port_fields qs (put ip_key (str bind) document))),
        get-put ip_key k (str ip)
            (put_ports connection_port_fields qs (put ip_key (str bind) document)),
        get-put_ports k connection_port_fields qs (put ip_key (str bind) document),
        get-put ip_key k (str bind) document,
      )
      (found-over k ip bind a b c d e a' b' c' d' e' (get k document)
        (ground (arith, hip, eq_text_iff k ip_key))
        (found-read k connection_port_fields document ps (
          unique_ports_sound (read_ports connection_port_fields document) ps
            (unfold connection_ports in hports))))
