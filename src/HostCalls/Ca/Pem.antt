-- ===== src/HostCalls/Ca/Pem.antt =====
-- host_calls/src/remote_attestation.rs: what `ias_ca_core` is of a PEM file.
use mathlib.Core.List.{append-nil}
use substra_tee_node_pre.Base.{
  ◌-◌, ◌≡◌, ◌≢◌, ◌∙◌, refl, List, [], ◌∷◌, ◌++◌, Bytes, bytes_of, arith, length, length-append,
  retain, slice, take-append, drop-append, subst, sym,
}
use substra_tee_node_pre.Base.Outcome.{ok}
use substra_tee_node_pre.HostCalls.Ca.{ca_core, not_line_end, head_len, tail_len}

-- A line feed, with or without a carriage return before it.
pub data LineEnd : Type 0 where
  lf crlf : LineEnd

unfoldable pub bytes_of_end : LineEnd → Bytes
bytes_of_end lf = 0x0a ∷ []
bytes_of_end crlf = 0x0d ∷ 0x0a ∷ []

-- No byte of the text ends a line.
unfoldable pub Unbroken : Bytes → Type 0
Unbroken [] = Unit
Unbroken (x ∷ xs) = (x ≢ 0x0d) × (x ≢ 0x0a) × Unbroken xs

-- Lines with their ends, and the text without them.
unfoldable pub print_lines : List (Bytes × LineEnd) → Bytes
unfolding bytes_of_end
print_lines [] = []
print_lines ((line, end) ∷ lines) = line ++ (bytes_of_end end ++ print_lines lines)

unfoldable pub joined : List (Bytes × LineEnd) → Bytes
joined [] = []
joined ((line, end) ∷ lines) = line ++ joined lines

unfoldable pub AreUnbroken : List (Bytes × LineEnd) → Type 0
AreUnbroken [] = Unit
AreUnbroken ((line, end) ∷ lines) = Unbroken line × AreUnbroken lines

abbrev pub pem_head : Bytes
pem_head = bytes_of "-----BEGIN CERTIFICATE-----"

abbrev pub pem_tail : Bytes
pem_tail = bytes_of "-----END CERTIFICATE-----"

retain-append :
    (xs ys : Bytes)
    → retain not_line_end (xs ++ ys) ≡ retain not_line_end xs ++ retain not_line_end ys
unfolding retain
retain-append [] ys = refl
retain-append (x ∷ xs) ys = ground (arith, retain-append xs ys)

retain-Unbroken : (line : Bytes) → Unbroken line → retain not_line_end line ≡ line
unfolding retain Unbroken
retain-Unbroken [] h = refl
retain-Unbroken (x ∷ xs) (ncr, nlf, h) = ground (arith, retain-Unbroken xs h)

retain-end : (end : LineEnd) → retain not_line_end (bytes_of_end end) ≡ []
unfolding retain bytes_of_end
retain-end lf = refl
retain-end crlf = refl

retain-print_lines :
    (lines : List (Bytes × LineEnd))
    → AreUnbroken lines
    → retain not_line_end (print_lines lines) ≡ joined lines
unfolding print_lines joined AreUnbroken retain
retain-print_lines [] h = refl
retain-print_lines ((line, end) ∷ lines) (here, rest) =
    retain-append line (bytes_of_end end ++ print_lines lines)
    ∙ rw
        (
          retain-Unbroken line here,
          retain-append (bytes_of_end end) (print_lines lines),
          retain-end end,
          retain-print_lines lines rest,
        )
        refl

retain-head : retain not_line_end pem_head ≡ pem_head
unfolding retain
retain-head = refl

retain-tail : retain not_line_end pem_tail ≡ pem_tail
unfolding retain
retain-tail = refl

slice_middle :
    (xs ys zs : Bytes)
    → slice (xs ++ (ys ++ zs)) (length xs) (length (xs ++ (ys ++ zs)) - length zs) ≡ ok ys
slice_middle xs ys zs =
    let long = length-append xs (ys ++ zs) in
    let long' = length-append ys zs in
    let e : length (xs ++ (ys ++ zs)) - length zs - length xs ≡ length ys = omega arith in
    ground (arith, e, long, long', drop-append xs (ys ++ zs), take-append ys zs)

-- A PEM file of a certificate, and what is left of it without the line ends.
abbrev pub print_pem : LineEnd → List (Bytes × LineEnd) → LineEnd → Bytes
print_pem first lines last =
    pem_head ++ (bytes_of_end first ++ (print_lines lines ++ (pem_tail ++ bytes_of_end last)))

retain-print_pem :
    (first last : LineEnd) (lines : List (Bytes × LineEnd))
    → AreUnbroken lines
    → retain not_line_end (print_pem first lines last) ≡ pem_head ++ (joined lines ++ pem_tail)
retain-print_pem first last lines h =
    let tail : retain not_line_end (pem_tail ++ bytes_of_end last) ≡ pem_tail =
      retain-append pem_tail (bytes_of_end last)
      ∙ cc (retain-tail, retain-end last, append-nil pem_tail) in
    let body : retain not_line_end (print_lines lines ++ (pem_tail ++ bytes_of_end last))
        ≡ joined lines ++ pem_tail =
      retain-append (print_lines lines) _ ∙ cc (retain-print_lines lines h, tail) in
    let rest : retain not_line_end
          (bytes_of_end first ++ (print_lines lines ++ (pem_tail ++ bytes_of_end last)))
        ≡ joined lines ++ pem_tail =
      retain-append (bytes_of_end first) _ ∙ cc (retain-end first, body) in
    retain-append pem_head _ ∙ cc (retain-head, rest)

-- From a PEM file of the header, lines of text and the footer, each with a line feed or a carriage
-- return and a line feed behind it, `ca_core` takes the text of the lines, joined.
pub ca_core-print_pem :
    (first last : LineEnd) (lines : List (Bytes × LineEnd))
    → AreUnbroken lines
    → ca_core (print_pem first lines last) ≡ ok (joined lines)
unfolding ca_core
ca_core-print_pem first last lines h =
    let stripped = retain-print_pem first last lines h in
    subst (λ bytes. slice bytes head_len (length bytes - tail_len) ≡ ok (joined lines))
      (sym stripped) (slice_middle pem_head (joined lines) pem_tail)
