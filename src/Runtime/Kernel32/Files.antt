-- ===== src/Runtime/Kernel32/Files.antt =====
-- Handles and files of runtime/shim_kernel32.c.
use silver_nimbus_otter.Prelude.{
  ==_iff, Bool-cases, Meets-bind, Meets-if, Returns, ap, arith, bit_or, false, inl, inr, leb→le,
  ltb, ok, refl, subst, sym, true, ℕ, ◌%◌, ◌++◌, ◌+◌, ◌-◌, ◌<◌, ◌==◌, ◌∙◌, ◌∷◌, ◌≡◌, ◌≢◌, ◌≤◌, ◌⊎◌,
}
use silver_nimbus_otter.Runtime.Output.{write_all}
use silver_nimbus_otter.Runtime.Heap.Realloc.{not_null}
use silver_nimbus_otter.Runtime.Kernel32.Results.{store_result-Meets, HasResult, IsResult}
use silver_nimbus_otter.Runtime.Output.Whole.{write_all_whole, Says, IsSteady}
use silver_nimbus_otter.Runtime.Memory.{bytes_from}
use silver_nimbus_otter.Runtime.Output.Progress.{IsWrite, sent}
use silver_nimbus_otter.Runtime.Kernel32.{
  close_handle, store_result, write_all, access_mode, creation_flags, set_last_error,
  invalid_handle, write_file, fd_of, create_file,
}
use silver_nimbus_otter.Runtime.{closed, is_negative, Kernel, Machine}
use silver_nimbus_otter.Bytes.{le32, u32_mod}

-- A handle is its file descriptor and one more.
abbrev pub IsHandle : ℕ → Type 0
IsHandle h = (0 < h) × (h < 2147483648)

-- A word that is no handle: NULL, or negative.
abbrev pub IsNoHandle : ℕ → Type 0
IsNoHandle h = (h ≡ 0) ⊎ ((2147483648 < h) × (h < u32_mod))

fd_of-IsHandle : (h : ℕ) → IsHandle h → (fd_of h ≡ ok (h - 1)) × (is_negative (h - 1) ≡ false)
unfolding fd_of
fd_of-IsHandle h i =
    let ne : (h == 2147483648) ≡ false = ground arith in
    let e : (h + u32_mod - 1) % u32_mod ≡ h - 1 = omega arith in (rw (ne, e) refl, ground arith)

fd_of-IsNoHandle : (h : ℕ) → IsNoHandle h → (fd : ℕ) × (fd_of h ≡ ok fd) × (is_negative fd ≡ true)
unfolding fd_of
fd_of-IsNoHandle h (inl i) =
    let ne : (h == 2147483648) ≡ false = ground arith in
    let e : (h + u32_mod - 1) % u32_mod ≡ u32_mod - 1 = omega arith in
    (u32_mod - 1, rw (ne, e) refl, refl)
fd_of-IsNoHandle h (inr i) =
    let ne : (h == 2147483648) ≡ false = ground arith in
    let e : (h + u32_mod - 1) % u32_mod ≡ h - 1 = omega arith in
    (h - 1, rw (ne, e) refl, ground arith)

-- What WriteFile comes to: an overlapped call or a word that is no handle is refused, with its error
-- and nothing else done; otherwise all the bytes have gone to the handle's file, and their number is
-- stored where it is wanted.
abbrev pub WroteFile : ℕ → ℕ → ℕ → ℕ → ℕ → Machine → ℕ × Machine → Type 0
WroteFile h buf n written overlapped m r =
    ((overlapped ≢ 0) × (r ≡ (0, record m { last_error = 87 })))
    ⊎ ((overlapped ≡ 0) × IsNoHandle h × (r ≡ (0, record m { last_error = 6 })))
    ⊎ ((overlapped ≡ 0)
        × IsHandle h
        × (r.0 ≡ 1)
        × (sent (h - 1) r.1.events ≡ sent (h - 1) m.events ++ bytes_from m.bytes buf n)
        × ((written ≡ 0) ⊎ (bytes_from r.1.bytes written 4 ≡ le32 n)))

refused-Meets :
    (k : Kernel) (h buf n written overlapped : ℕ) (m : Machine)
    → overlapped ≡ 0
    → IsNoHandle h
    → Returns (WroteFile h buf n written overlapped m) (write_file k h buf n written overlapped m)
unfolding write_file set_last_error
refused-Meets k h buf n written overlapped m z i =
    let (fd, e, neg) = fd_of-IsNoHandle h i in
    let none : (overlapped == 0) ≡ true = (==_iff overlapped 0).1 z in
    rw (none, e, neg) (inr (inl (z, i, refl)))

accepted-Meets :
    (k : Kernel) (h buf n written overlapped : ℕ) (m : Machine)
    → IsWrite k
    → IsSteady k
    → n < u32_mod
    → overlapped ≡ 0
    → IsHandle h
    → IsResult m written
    → Returns (WroteFile h buf n written overlapped m) (write_file k h buf n written overlapped m)
unfolding write_file
accepted-Meets k h buf n written overlapped m w st u z i res =
    let (e, nonneg) = fd_of-IsHandle h i in
    let none : (overlapped == 0) ≡ true = (==_iff overlapped 0).1 z in
    let P = WroteFile h buf n written overlapped m in
    let fd = h - 1 in
    rw (none, e, nonneg)
      (Meets-bind ⊥ (λ r. (r.0 ≡ n) × Says fd (bytes_from m.bytes buf n) m r.1) P
        (write_all k fd buf n m) _ (write_all_whole k fd buf n m w st u)
        λ r _ q.
          Meets-bind ⊥ (HasResult written r.0 r.1) P (store_result r.1 written r.0) _
            (store_result-Meets r.1 written r.0 (subst (λ x. IsResult x written) (sym q.1.0) res))
            λ m' _ s. inr (
              inr (
                z,
                i,
                refl,
                ap (λ (x : Machine). sent fd x.events) s.0 ∙ q.1.1,
                subst (λ (x : ℕ). (written ≡ 0) ⊎ (bytes_from m'.bytes written 4 ≡ le32 x)) q.0 s.1,
              )))

IsHandle-cases : (h : ℕ) → h < u32_mod → h ≢ 2147483648 → IsHandle h ⊎ IsNoHandle h
IsHandle-cases h u ne = ground arith

-- If every write of some bytes writes at least one and no more than it is asked to, the handle is
-- not the least long, and there is room for the count or it is not wanted, WriteFile is refused with
-- its error or has written all the bytes.
pub write_file-Meets :
    (k : Kernel) (h buf n written overlapped : ℕ) (m : Machine)
    → IsWrite k
    → IsSteady k
    → n < u32_mod
    → h < u32_mod
    → h ≢ 2147483648
    → IsResult m written
    → Returns (WroteFile h buf n written overlapped m) (write_file k h buf n written overlapped m)
unfolding write_file set_last_error
write_file-Meets k h buf n written overlapped m w st u uh ne res =
    elim (Bool-cases (overlapped == 0)) [
      | inl e ↦ let z = (==_iff overlapped 0).0 e in go z (IsHandle-cases h uh ne)
      | inr e ↦ rw e (inl (not_null overlapped e, refl))
    ]
  where
    go :
        overlapped ≡ 0
        → IsHandle h ⊎ IsNoHandle h
        → Returns
            (WroteFile h buf n written overlapped m)
            (write_file k h buf n written overlapped m)
    go z (inl i) = accepted-Meets k h buf n written overlapped m w st u z i res
    go z (inr i) = refused-Meets k h buf n written overlapped m z i

-- INVALID_HANDLE_VALUE and the error, or a handle that stands for the kernel's file descriptor.
abbrev pub OpenedFile : ℕ → ℕ × Machine → Type 0
OpenedFile fd r =
    ((2147483648 ≤ fd) × (r.0 ≡ invalid_handle) × (r.1.last_error ≡ 2))
    ⊎ (IsHandle r.0 × (fd_of r.0 ≡ ok fd))

-- If open(2) does not give the largest long, CreateFileA gives INVALID_HANDLE_VALUE with the error
-- for a missing file where open(2) failed, and otherwise a handle that is not NULL and that the
-- calls on handles turn back into the file descriptor that open(2) gave.
pub create_file-Meets :
    (k : Kernel) (path access disposition fd : ℕ) (m : Machine)
    → k.open_file m.events path (bit_or (creation_flags disposition) (access_mode access)) 420 ≡ fd
    → fd ≢ 2147483647
    → Returns (OpenedFile fd) (create_file k path access disposition m)
unfolding create_file set_last_error
create_file-Meets k path access disposition fd m e ne = rw e (
    Meets-if ⊥ (OpenedFile fd) (is_negative fd) _ _
      (λ neg. inl (leb→le 2147483648 fd neg, refl, refl))
      λ pos.
        let small : fd < 2147483648 = ground arith in
        let other : (fd == 2147483647) ≡ false = ground arith in
        let i : IsHandle (fd + 1) = (omega arith, omega arith) in
        let back : fd + 1 - 1 ≡ fd = omega arith in
        rw other (inr (i, (fd_of-IsHandle (fd + 1) i).0 ∙ ap (λ (x : ℕ). ok x) back)))

-- CloseHandle says that it was done. It has closed the file descriptor of a handle other than those
-- of the standard streams, or done nothing.
abbrev pub ClosedFile : ℕ → Machine → ℕ × Machine → Type 0
ClosedFile h m r =
    (r.0 ≡ 1)
    × ((IsHandle h × (3 < h) × (r.1 ≡ record m { events = closed (h - 1) ∷ m.events }))
        ⊎ ((h ≤ 3) × (r.1 ≡ m))
        ⊎ (IsNoHandle h × (r.1 ≡ m)))

-- For every word but the least long, CloseHandle returns 1; it closes the file descriptor behind a
-- handle that is not one of the standard streams' three, and nothing else.
pub close_handle-Meets :
    (h : ℕ) (m : Machine)
    → h < u32_mod
    → h ≢ 2147483648
    → Returns (ClosedFile h m) (close_handle h m)
unfolding close_handle
close_handle-Meets h m u ne = go (IsHandle-cases h u ne)
  where
    go : IsHandle h ⊎ IsNoHandle h → Returns (ClosedFile h m) (close_handle h m)
    go (inl i) =
        let (e, nonneg) = fd_of-IsHandle h i in
        rw (e, nonneg)
          (Meets-if ⊥ (ClosedFile h m) (ltb 2 (h - 1)) _ _
            (λ big. (refl, inl (i, ground arith, refl)))
            λ small. (refl, inr (inl (ground arith, refl))))
    go (inr i) = let (fd, e, neg) = fd_of-IsNoHandle h i in rw (e, neg) (refl, inr (inr (i, refl)))
