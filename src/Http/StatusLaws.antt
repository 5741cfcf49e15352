-- ===== src/Http/StatusLaws.antt =====
-- `parse_status_line` reads back the code of a status line.
use vehicle_detection_system.Common.{
  ℕ, ◌+◌, ◌-◌, ◌*◌, ◌<◌, ◌≡◌, refl, sym, ap, ◌∙◌, some, [], ◌∷◌, ◌++◌, Bytes, codes, length, take,
  drop, arith, All, All-append, decimal, append-nil,
}
use vehicle_detection_system.Common.Search.{
  find_crlf-append, Lacks, find-append, take-length-append, drop-suc-length,
}
use vehicle_detection_system.Common.Int.{pos}
use native.Mathlib.Numerals.{add-one}
use vehicle_detection_system.Common.Decimal.{
  Lacks-decimal, IsDigit, eval, eval-decimal, decimal-IsDigit, decimal-cons,
}
use vehicle_detection_system.Http.Status.{
  space, read_number, int_limit, stoi, status_code, parse_line, parse_status_line,
}

-- Digits are read up to the first byte that is none.
read_number-append :
    (acc : ℕ) (s t : Bytes) → All IsDigit s → read_number acc (s ++ t) ≡ read_number (eval acc s) t
unfolding read_number eval
read_number-append acc [] t h = refl
read_number-append acc (c ∷ s) t (h, hs) =
    ground (arith, read_number-append (acc * 10 + (c - 48)) s t hs)

read_number-decimal : (n : ℕ) → read_number 0 (decimal n) ≡ n
unfolding read_number
read_number-decimal n =
    ap (read_number 0) (sym (append-nil (decimal n)))
    ∙ read_number-append 0 (decimal n) [] (decimal-IsDigit n)
    ∙ eval-decimal n

stoi-decimal : (n : ℕ) → n < int_limit → stoi (decimal n) ≡ some (pos n)
unfolding stoi
stoi-decimal n h =
    let (c, s, e, d) = decimal-cons n in
    let value : read_number 0 (c ∷ s) ≡ n = ap (read_number 0) (sym e) ∙ read_number-decimal n in
    rw e (ground (arith, value))

-- The status line of a server: a version, the code, a reason.
pub status_line : Bytes → ℕ → Bytes → Bytes
status_line version n reason = codes "HTTP/" ++ (version ++ space ∷ (decimal n ++ space ∷ reason))

status_code_lem :
    (version : Bytes) (n : ℕ) (reason : Bytes)
    → Lacks space version
    → status_code (status_line version n reason) ≡ some (decimal n)
unfolding status_code status_line
status_code_lem version n reason h =
    let front = codes "HTTP/" ++ version in
    let tail = decimal n ++ space ∷ reason in
    let behind : drop (length front + 1) (front ++ space ∷ tail) ≡ tail =
      ap (λ (k : ℕ). drop k (front ++ space ∷ tail)) (add-one (length front))
      ∙ drop-suc-length front space tail in
    rw
      (
        find-append space front tail (All-append _ (codes "HTTP/") version (omega arith) h),
        status_code,
        behind,
        find-append space (decimal n) reason (Lacks-decimal space n (omega arith)),
      )
      (ap some
        (ap (take (length (decimal n))) behind ∙ take-length-append (decimal n) (space ∷ reason)))

parse_line_lem :
    (version : Bytes) (n : ℕ) (reason : Bytes)
    → Lacks space version
    → n < int_limit
    → parse_line (status_line version n reason) ≡ pos n
unfolding parse_line status_line
parse_line_lem version n reason h k =
    let code : status_code (status_line version n reason) ≡ some (decimal n) =
      status_code_lem version n reason h in
    rw (code, parse_line) (rw (stoi-decimal n k))

-- The code of a status line is read back, whatever the version, the reason and what follows the
-- line, as long as the version holds no space, the line no carriage return, and the code fits an int.
pub parse_status_line-status_line :
    (version : Bytes) (n : ℕ) (reason rest : Bytes)
    → Lacks space version
    → Lacks 13 version
    → Lacks 13 reason
    → n < int_limit
    → parse_status_line (status_line version n reason ++ 13 ∷ 10 ∷ rest) ≡ pos n
unfolding parse_status_line
parse_status_line-status_line version n reason rest h v r k =
    let whole : Lacks 13 (status_line version n reason) =
      unfold status_line in
      All-append _ (codes "HTTP/") (version ++ space ∷ (decimal n ++ space ∷ reason)) (omega arith)
        (All-append _ version (space ∷ (decimal n ++ space ∷ reason)) v (
          omega arith,
          All-append _ (decimal n) (space ∷ reason) (Lacks-decimal 13 n (omega arith))
              (omega arith, r),
        )) in
    rw
      (
        find_crlf-append (status_line version n reason) rest whole,
        parse_status_line,
        take-length-append (status_line version n reason) (13 ∷ 10 ∷ rest),
      )
      (parse_line_lem version n reason h k)
