-- ===== src/Snoop/Report/Text.antt =====
-- The texts of the header and of a line, byte by byte. What `%-14.9f` makes of a number of nanoseconds
-- is a parameter.
use mathlib.Core.List.{append-nil}
use rust_ebpf_demo.Prelude.{
  ℕ, zero, suc, ◌+◌, ◌-◌, ◌^◌, ◌≤◌, ◌≡◌, refl, sym, ap, ◌∙◌, Bool, true, Option, none, some, List,
  [], ◌∷◌, ◌++◌, length, take, drop, replicate, arith,
}
use rust_ebpf_demo.Prelude.Int.{ℤ, pos, negsuc}
use rust_ebpf_demo.Clib.Strtol.{Ends, strtol}
use rust_ebpf_demo.Clib.Text.{codes}
use rust_ebpf_demo.Clib.Printf.{
  decimal_ℤ, pad_left, pad_right, length-pad_left, length-pad_right, FitsIn, IsShort,
  length-decimal_ℤ, strtol-decimal_ℤ, strtol-pad_left,
}
use rust_ebpf_demo.Snoop.Args.{Options}
use rust_ebpf_demo.Snoop.Report.{Column, left, right, plain, print_header, Line}

abbrev column_text : Column → List ℕ
column_text (left width text) = pad_right width (codes text)
column_text (right width text) = pad_left width (codes text)
column_text (plain text) = codes text

-- With blanks between them.
abbrev spaced : List Column → List ℕ
spaced [] = []
spaced (c ∷ []) = column_text c
spaced (c ∷ d ∷ columns) = column_text c ++ (b' ' ∷ spaced (d ∷ columns))

-- The time is printed by a `printf` of its own, with no blank behind it.
abbrev columns_text : Bool → List Column → List ℕ
columns_text true (c ∷ columns) = column_text c ++ spaced columns
columns_text b columns = spaced columns

abbrev pub header_text : Options → List ℕ
header_text o = columns_text o.timestamp (print_header o) ++ (10 ∷ [])

module _ (seconds : ℤ → List ℕ) where
  abbrev pub time_text : Option ℤ → List ℕ
  time_text none = []
  time_text (some nanos) = seconds nanos

  -- `"%-6d %-16s %4d %3d %s\n"`
  abbrev pub fields_text : Line → List ℕ
  fields_text l =
      pad_right 6 (decimal_ℤ l.pid)
      ++ (b' ' ∷ pad_right 16 l.comm
          ++ (b' ' ∷ pad_left 4 (decimal_ℤ l.fd_s)
              ++ (b' ' ∷ pad_left 3 (decimal_ℤ l.err) ++ (b' ' ∷ l.fname ++ (10 ∷ [])))))

  abbrev pub line_text : Line → List ℕ
  line_text l = time_text l.delta ++ fields_text l

-- The fields are no wider than their columns.
pub record IsNarrow (l : Line) : Type 0 where
  pub pid : FitsIn 6 l.pid
  pub comm : length l.comm ≤ 16
  pub fd_s : FitsIn 4 l.fd_s
  pub err : FitsIn 3 l.err

-- What stands in the columns of the header: the bytes from 0, 7, 24, 29 and 33 on.
abbrev pub read_columns : List ℕ → ℤ × List ℕ × ℤ × ℤ × List ℕ
read_columns text = (
  (strtol (take 6 text)).value,
  take 16 (drop 7 text),
  (strtol (take 4 (drop 24 text))).value,
  (strtol (take 3 (drop 29 text))).value,
  drop 33 text,
)

module _ {ℓ} {A : Type ℓ} where
  take_front : (n : ℕ) (xs ys : List A) → length xs ≡ n → take n (xs ++ ys) ≡ xs
  take_front zero [] ys e = refl
  take_front zero (x ∷ xs) ys e = absurd (omega (arith, e))
  take_front (suc n) [] ys e = absurd (omega (arith, e))
  take_front (suc n) (x ∷ xs) ys e = ap (λ l. x ∷ l) (take_front n xs ys (omega (arith, e)))

  drop_front : (n : ℕ) (xs ys : List A) → length xs ≡ n → drop n (xs ++ ys) ≡ ys
  drop_front zero [] ys e = refl
  drop_front zero (x ∷ xs) ys e = absurd (omega (arith, e))
  drop_front (suc n) [] ys e = absurd (omega (arith, e))
  drop_front (suc n) (x ∷ xs) ys e = drop_front n xs ys (omega (arith, e))

  drop_past :
      (n : ℕ) (xs : List A) (y : A) (ys : List A) → length xs ≡ n → drop (suc n) (xs ++ y ∷ ys) ≡ ys
  drop_past zero [] y ys e = refl
  drop_past zero (x ∷ xs) y ys e = absurd (omega (arith, e))
  drop_past (suc n) [] y ys e = absurd (omega (arith, e))
  drop_past (suc n) (x ∷ xs) y ys e = drop_past n xs y ys (omega (arith, e))

  drop-drop : (m n k : ℕ) (xs : List A) → k ≡ m + n → drop n (drop m xs) ≡ drop k xs
  drop-drop zero n k xs e = let same : n ≡ k = omega (arith, e) in ap (λ z. drop z xs) same
  drop-drop (suc m) n zero xs e = absurd (omega (arith, e))
  drop-drop (suc m) zero (suc k) [] e = refl
  drop-drop (suc m) (suc n) (suc k) [] e = refl
  drop-drop (suc m) n (suc k) (x ∷ xs) e = drop-drop m n k xs (omega (arith, e))

FitsIn-IsShort :
    (w : ℕ) (z : ℤ) → 10 ^ w ≤ 10 ^ 10 → 10 ^ (w - 1) ≤ 10 ^ 10 → FitsIn w z → IsShort z
FitsIn-IsShort w (pos n) le le' h = omega (arith, le, h)
FitsIn-IsShort w (negsuc n) le le' h = omega (arith, le', h)

replicate-Ends : (n : ℕ) → Ends (replicate n b' ')
replicate-Ends zero = tt
replicate-Ends (suc n) = refl

module _ (seconds : ℤ → List ℕ) (l : Line) (h : IsNarrow l) where
  -- What stands from byte 7, 24, 29 and 33 on.
  from_err : List ℕ
  from_err = pad_left 3 (decimal_ℤ l.err) ++ (b' ' ∷ l.fname ++ (10 ∷ []))

  from_fd : List ℕ
  unfolding from_err
  from_fd = pad_left 4 (decimal_ℤ l.fd_s) ++ (b' ' ∷ from_err)

  from_comm : List ℕ
  unfolding from_fd
  from_comm = pad_right 16 l.comm ++ (b' ' ∷ from_fd)

  text : List ℕ
  text = fields_text seconds l

  length_pid : length (pad_right 6 (decimal_ℤ l.pid)) ≡ 6
  length_pid = length-pad_right 6 (decimal_ℤ l.pid) (length-decimal_ℤ 6 l.pid (omega arith) h.pid)

  length_comm : length (pad_right 16 l.comm) ≡ 16
  length_comm = length-pad_right 16 l.comm h.comm

  length_fd : length (pad_left 4 (decimal_ℤ l.fd_s)) ≡ 4
  length_fd = length-pad_left 4 (decimal_ℤ l.fd_s) (length-decimal_ℤ 4 l.fd_s (omega arith) h.fd_s)

  length_err : length (pad_left 3 (decimal_ℤ l.err)) ≡ 3
  length_err = length-pad_left 3 (decimal_ℤ l.err) (length-decimal_ℤ 3 l.err (omega arith) h.err)

  drop_comm : drop 7 text ≡ from_comm
  unfolding text from_comm from_fd from_err
  drop_comm = drop_past 6 (pad_right 6 (decimal_ℤ l.pid)) b' ' from_comm length_pid

  drop_fd : drop 24 text ≡ from_fd
  unfolding from_comm
  drop_fd =
      sym (drop-drop 7 17 24 text (omega arith))
      ∙ (ap (drop 17) drop_comm ∙ drop_past 16 (pad_right 16 l.comm) b' ' from_fd length_comm)

  drop_err : drop 29 text ≡ from_err
  unfolding from_fd
  drop_err =
      sym (drop-drop 24 5 29 text (omega arith))
      ∙ (ap (drop 5) drop_fd ∙ drop_past 4 (pad_left 4 (decimal_ℤ l.fd_s)) b' ' from_err length_fd)

  drop_fname : drop 33 text ≡ l.fname ++ (10 ∷ [])
  unfolding from_err
  drop_fname =
      sym (drop-drop 29 4 33 text (omega arith))
      ∙ (ap (drop 4) drop_err
          ∙ drop_past 3 (pad_left 3 (decimal_ℤ l.err)) b' ' (l.fname ++ (10 ∷ [])) length_err)

  -- A number on the right of its column.
  number_right :
      (w : ℕ) (z : ℤ) (rest : List ℕ)
      → length (pad_left w (decimal_ℤ z)) ≡ w
      → IsShort z
      → (strtol (take w (pad_left w (decimal_ℤ z) ++ rest))).value ≡ z
  number_right w z rest len small =
      ap (λ t. (strtol t).value)
        (take_front w (pad_left w (decimal_ℤ z)) rest len
          ∙ sym (append-nil (pad_left w (decimal_ℤ z))))
      ∙ strtol-pad_left w z [] small tt

  read_pid : (strtol (take 6 text)).value ≡ l.pid
  unfolding text
  read_pid =
      ap (λ t. (strtol t).value) (take_front 6 (pad_right 6 (decimal_ℤ l.pid)) _ length_pid)
      ∙ strtol-decimal_ℤ l.pid _ (FitsIn-IsShort 6 l.pid (omega arith) (omega arith) h.pid)
          (replicate-Ends (6 - length (decimal_ℤ l.pid)))

  -- In a line whose numbers and name are no wider than their columns, behind the time, if there is one,
  -- each field is read back from the columns in which it stands: the process, the name with blanks up to
  -- 16 bytes, the descriptor, the error, and the file name up to the end of the line.
  pub read_columns-line_text :
      read_columns (drop (length (time_text seconds l.delta)) (line_text seconds l))
      ≡ (l.pid, pad_right 16 l.comm, l.fd_s, l.err, l.fname ++ (10 ∷ []))
  unfolding text from_comm from_fd from_err
  read_columns-line_text =
      let fields =
        drop_front (length (time_text seconds l.delta)) (time_text seconds l.delta) text refl in
      let comm = ap (take 16) drop_comm ∙ take_front 16 (pad_right 16 l.comm) _ length_comm in
      let fd =
        ap (λ t. (strtol (take 4 t)).value) drop_fd
        ∙ number_right 4 l.fd_s (b' ' ∷ from_err) length_fd
            (FitsIn-IsShort 4 l.fd_s (omega arith) (omega arith) h.fd_s) in
      let err =
        ap (λ t. (strtol (take 3 t)).value) drop_err
        ∙ number_right 3 l.err _ length_err
            (FitsIn-IsShort 3 l.err (omega arith) (omega arith) h.err) in
      ap read_columns fields ∙ λ i. (read_pid i, comm i, fd i, err i, drop_fname i)
