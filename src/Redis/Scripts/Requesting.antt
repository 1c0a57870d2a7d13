-- ===== src/Redis/Scripts/Requesting.antt =====
-- rediscpp/Script.cpp and Script.h: the arguments that EVAL and EVALSHA send.
use zylib.Prelude.{
  ℕ, zero, suc, ◌+◌, ◌-◌, ◌*◌, ◌/◌, ◌%◌, ◌^◌, ◌≤◌, ◌<◌, ◌≡◌, refl, sym, ap, ap₂, ◌∙◌, inl, inr,
  true, false, ◌&&◌, Option, none, some, List, [], ◌∷◌, ◌++◌, map, append-nil, append_assoc, arith,
  ltb, leb, if◌then◌else◌, ltb→lt, lt→ltb, ltb→ge, ge→ltb, leb→le, Bool-cases, length, take, drop,
  resize, length-append, length-resize, take-all, drop-all, drop-ge, memcpy_at,
}
use native.Mathlib.Nat.{pow-suc, mod-eq_of_lt}
use zylib.Redis.Commands.{throws, exception}
use zylib.Redis.Scripts.{
  Reply, decimal, to_string, to_argument, eval_arguments, argument_count, merge_keys, evalsha_text,
  eval_internal, evalsha_args,
}

-- The number that digits stand for, behind those read before.
abbrev pub number_from : ℕ → List ℕ → ℕ
number_from n [] = n
number_from n (d ∷ ds) = number_from (n * 10 + (d - 48)) ds

number_from-append :
    (n : ℕ) (ds : List ℕ) (d : ℕ) → number_from n (ds ++ d ∷ []) ≡ number_from n ds * 10 + (d - 48)
number_from-append n [] d = refl
number_from-append n (e ∷ ds) d = number_from-append (n * 10 + (e - 48)) ds d

number_from-decimal : (fuel n : ℕ) → n < 10 ^ fuel → number_from 0 (decimal fuel n) ≡ n
unfolding decimal
number_from-decimal zero n h = omega arith
number_from-decimal (suc fuel) n h = elim (Bool-cases (ltb n 10)) [
  | inl digit ↦ rw (decimal, digit) (omega arith)
  | inr more ↦
      rw (decimal, more, number_from-append 0 (decimal fuel (n / 10)) (48 + n % 10))
        (omega (arith, number_from-decimal fuel (n / 10) (omega (arith, pow-suc 10 fuel))))
]

-- How the server reads the arguments: the name, the script, the number of keys, the keys and the rest.
abbrev pub read_eval : List (List ℕ) → Option (List ℕ × List ℕ × List (List ℕ) × List (List ℕ))
read_eval (name ∷ (script ∷ (count ∷ rest))) =
    some (name, script, take (number_from 0 count) rest, drop (number_from 0 count) rest)
read_eval _ = none

to_argument_lem : (bytes : List ℕ) → to_argument bytes ≡ bytes
unfolding to_argument memcpy_at
to_argument_lem bytes =
    ap (◌++◌ bytes) (
      drop-ge (0 + length bytes) (resize (length bytes) 0 [])
        (omega (arith, length-resize {A = ℕ} (length bytes) 0 [])))
    ∙ append-nil bytes

all_arguments : (xs : List (List ℕ)) → map to_argument xs ≡ xs
all_arguments [] = refl
all_arguments (x ∷ xs) = ap₂ ◌∷◌ (to_argument_lem x) (all_arguments xs)

length-map {ℓ κ} :
    {A : Type ℓ} {B : Type κ} (f : A → B) (xs : List A) → length (map f xs) ≡ length xs
length-map f [] = refl
length-map f (x ∷ xs) = ap suc (length-map f xs)

-- The count is that of the arguments, and the server reads of so many of them the script, the keys and the
-- values that evalInternal was given, each as it was, whatever bytes they have. The keys and values are
-- fewer than 2 ^ 31 - 3, so their number with the first three fits an int.
pub read_eval-eval_arguments :
    (eval_cmd cmd : List ℕ) (keys values : List (List ℕ))
    → 3 + (length keys + length values) < 2 ^ 31
    → let args = eval_arguments eval_cmd cmd keys values in
      (argument_count args ≡ length args)
      × (read_eval (take (argument_count args) args) ≡ some (eval_cmd, cmd, keys, values))
unfolding eval_arguments to_string argument_count
read_eval-eval_arguments eval_cmd cmd keys values h =
    (whole, ap (λ n. read_eval (take n args)) whole ∙ ap read_eval all_taken ∙ read_all)
  where
    args : List (List ℕ)
    args = eval_arguments eval_cmd cmd keys values

    size : length args ≡ 3 + (length keys + length values)
    size = omega (
      arith,
      length-append (map to_argument keys) (map to_argument values),
      length-map to_argument keys,
      length-map to_argument values,
    )

    whole : length args % 2 ^ 32 ≡ length args
    whole = mod-eq_of_lt (omega (arith, size))

    all_taken : take (length args) args ≡ args
    all_taken =
        ap (take (length args)) (sym (append-nil args)) ∙ take-all (length args) args [] refl

    read_all : read_eval args ≡ some (eval_cmd, cmd, keys, values)
    read_all =
        let n = number_from-decimal 20 (length keys) (omega arith) in
        rw
          (
            to_argument_lem eval_cmd,
            to_argument_lem cmd,
            to_argument_lem (decimal 20 (length keys)),
            all_arguments keys,
            all_arguments values,
            n,
            take-all (length keys) keys values refl,
            drop-all (length keys) keys values refl,
          )
          refl

merge_keys_lem :
    (key_num : ℕ) (keys values args : List (List ℕ)) (k : ℕ)
    → key_num < 0x80000000
    → length keys + k ≡ key_num
    → k ≤ length args
    → merge_keys key_num keys values args ≡ (keys ++ take k args, values ++ drop k args)
unfolding merge_keys
merge_keys_lem key_num keys values [] zero small e h =
    ap₂ (λ a b. (a, b)) (sym (append-nil keys)) (sym (append-nil values))
merge_keys_lem key_num keys values [] (suc k) small e h = absurd (omega arith)
merge_keys_lem key_num keys values (arg ∷ args) zero small e h =
    rw (ge→ltb (length keys) key_num (omega arith)) (
      merge_keys_lem key_num keys (values ++ arg ∷ []) args zero small e (omega arith)
      ∙ ap (λ b. (keys ++ [], b)) (append_assoc values (arg ∷ []) args))
merge_keys_lem key_num keys values (arg ∷ args) (suc k) small e h =
    rw (lt→ltb (length keys) key_num (omega arith), lt→ltb key_num 0x80000000 small)
      (merge_keys_lem key_num (keys ++ arg ∷ []) values args k small
          (omega (arith, length-append keys (arg ∷ []))) (omega arith)
        ∙ ap (λ a. (a, values ++ drop k args)) (append_assoc keys (arg ∷ []) (take k args)))

-- EVALSHA with a number of keys takes so many of its arguments for keys and the rest for values, and throws
-- an Exception if the number is negative or more than there are. The arguments are fewer than 2 ^ 31.
pub evalsha_args-split :
    (conn : ℕ → List (List ℕ) → Option Reply) (cmd : List ℕ) (key_num : ℕ) (args : List (List ℕ))
    → length args < 0x80000000
    → evalsha_args conn cmd key_num args ≡ (
        if ltb key_num 0x80000000 && leb key_num (length args)
        then eval_internal conn evalsha_text cmd (take key_num args) (drop key_num args)
        else throws exception)
unfolding evalsha_args
evalsha_args-split conn cmd key_num args h = elim (Bool-cases (ltb key_num 0x80000000)) [
  | inr negative ↦
      let big : ltb (length args) (key_num + 0xffffffff00000000) ≡ true =
        lt→ltb _ _ (omega (arith, ltb→ge key_num 0x80000000 negative)) in
      rw (negative, big) refl
  | inl small ↦ elim (Bool-cases (leb key_num (length args))) [
    | inr more ↦
        let short : ltb (length args) key_num ≡ true = ground arith in rw (small, more, short) refl
    | inl enough ↦
        let fits : ltb (length args) key_num ≡ false = ge→ltb _ _ (leb→le _ _ enough) in
        rw
          (
            small,
            enough,
            fits,
            merge_keys_lem key_num [] [] args key_num (ltb→lt _ _ small) (omega arith)
                (leb→le _ _ enough),
          )
          refl
  ]
]
