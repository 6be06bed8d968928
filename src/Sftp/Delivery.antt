-- ===== src/Sftp/Delivery.antt =====
-- What the operations on handles deliver in the main thread.
use power_boot.Prelude.{
  ℕ, zero, suc, ◌+◌, refl, ◌≡◌, inl, inr, Bool-cases, true, false, Option, none, some, ap, ◌∙◌,
  length,
}
use power_boot.Prelude.Text.{Text, c_str}
use power_boot.Inet.{u32}
use power_boot.World.{World}
use power_boot.World.Session.{Rc}
use power_boot.World.Calls.{main_thread, SshCall, SshReply, FileAttributes}
use power_boot.Effects.{Env, pure, ◌>>=◌}
use power_boot.Effects.Keeps.{
  Pred, Post, Meets, Respects, Keeps, Meets-pure, Meets-bind, Meets-put_sftp, Meets-skip, Meets-get,
}
use power_boot.Net.Open.{length-overlay_any}
use power_boot.Sftp.{is_negative, is_zero, put_rc, rc_err_handle}
use power_boot.Transfer.{File}
use power_boot.Sftp.Handles.{entry, file_stat, file_read, dir_next, or_empty, memory}
use power_boot.Sftp.Files.{lstat, stat, statvfs}
use power_boot.Sftp.Outcome.{rc_err_handle-Meets}

-- The bytes of a file: as many as the size that the server gave, modulo 2 ^ 32.
abbrev pub Sized : Env → ℕ → Text → Type 0
Sized env handle out =
    (w : World) × (length out
      ≡ u32 (env.ssh_reply w (SshCall.file_fstat handle)).attributes.filesize)

-- What `next` returned for a reply of the server.
abbrev pub Listed : Env → ℕ → Option File → Type 0
Listed env handle none =
    (w : World) × (is_zero (env.ssh_reply w (SshCall.dir_read handle 512 512)).rc ≡ true)
Listed env handle (some f) =
    (w : World) × (is_negative (env.ssh_reply w (SshCall.dir_read handle 512 512)).rc ≡ false)
    × (is_zero (env.ssh_reply w (SshCall.dir_read handle 512 512)).rc ≡ false)
    × (f.attributes ≡ (env.ssh_reply w (SshCall.dir_read handle 512 512)).attributes)
    × (length f.buffer ≡ 512)
    × (length f.longentry ≡ 512)

-- A value is the one that a reply without an error has.
abbrev Reports : {A : Type 0} → Env → SshCall → (SshReply → A) → A → Type 0
Reports env call f a =
    (w : World) × (is_negative (env.ssh_reply w call).rc ≡ false) × (a ≡ f (env.ssh_reply w call))

abbrev pub StatCalls : Pred → Env → ℕ → Text → FileAttributes → World → Type 0
StatCalls P env fuel path attr w =
    Post P P (λ a _. Reports env (SshCall.sftp_stat (c_str path)) (λ r. r.attributes) a)
      (stat env fuel path w)
    × Post P P (λ a _. Reports env (SshCall.sftp_lstat (c_str path) attr) (λ r. r.attributes) a)
        (lstat env fuel path attr w)
    × Post P P (λ a _. Reports env (SshCall.sftp_statvfs path) (λ r. r.vfs) a)
        (statvfs env fuel path w)

pub put_rc-Keeps : {P : Pred} (rc : Rc) → Keeps P (put_rc rc)
put_rc-Keeps rc = Meets-put_sftp (λ s. record s { rc = rc })

pub length-memory : (f : ℕ → ℕ) (n : ℕ) → length (memory f n) ≡ n
length-memory f zero = refl
length-memory f (suc n) = ap suc (length-memory (λ i. f (suc i)) n)

module _ {P : Pred} {env : Env} (r : Respects P env) (main : env.me ≡ main_thread) where
  stat-reply :
      (fuel handle : ℕ)
      → Meets P P
          (λ a _. (w : World) × (a ≡ (env.ssh_reply w (SshCall.file_fstat handle)).attributes))
          (file_stat env fuel handle)
  unfolding file_stat
  stat-reply fuel handle =
      Meets-bind _ _ (rc_err_handle-Meets r fuel _ _ _ (λ _. Meets-skip) main) λ a _ (_, (w, e)).
        Meets-pure a.attributes (λ _ _. (w, ap (λ (a : SshReply). a.attributes) e))

  file_read-Meets :
      (fuel handle : ℕ) → Meets P P (λ out _. Sized env handle out) (file_read env fuel handle)
  unfolding file_read
  file_read-Meets fuel handle = Meets-bind _ _ (stat-reply fuel handle) λ a _ (w, e).
      Meets-bind _ _ Meets-get λ u _ _.
        Meets-bind _ _ (rc_err_handle-Meets r fuel _ _ _ (λ _. Meets-skip) main) λ b _ _.
          Meets-pure _ (λ _ _. (
            w,
            length-overlay_any (memory (env.fresh u) (u32 a.filesize)) (or_empty b.text)
                ∙ length-memory (env.fresh u) (u32 a.filesize)
                ∙ ap (λ (a : FileAttributes). u32 a.filesize) e,
          ))

  entry-Listed :
      (handle : ℕ) (f : ℕ → ℕ) (a : SshReply) (w : World)
      → is_negative a.rc ≡ false
      → a ≡ env.ssh_reply w (SshCall.dir_read handle 512 512)
      → Listed env handle (entry f a)
  unfolding entry
  entry-Listed handle f a w fine e = elim (Bool-cases (is_zero a.rc)) [
    | inl z ↦ rw z (w, rw (← e) z)
    | inr z ↦ rw z (
      w,
      rw (← e) fine,
      rw (← e) z,
      ap (λ (a : SshReply). a.attributes) e,
      length-overlay_any (memory f 512) (or_empty a.text) ∙ length-memory f 512,
      length-overlay_any (memory (λ i. f (512 + i)) 512) a.longentry
          ∙ length-memory (λ i. f (512 + i)) 512,
    )
  ]

  pub dir_next-Meets :
      (fuel handle : ℕ) → Meets P P (λ o _. Listed env handle o) (dir_next env fuel handle)
  unfolding dir_next
  dir_next-Meets fuel handle = Meets-bind _ _ Meets-get λ u _ _.
      Meets-bind _ _ (rc_err_handle-Meets r fuel _ _ _ (λ _. Meets-skip) main) λ a _ (fine, (w, e)).
        Meets-pure (entry (env.fresh u) a) (λ _ _. entry-Listed handle (env.fresh u) a w fine e)

  -- In the main thread, with a `P` of the table that other threads keep, which spare this one:
  -- where `stat`, `lstat` or `statvfs` returns, its result is that of a reply without an error that
  -- libssh2 has to its call in some state.
  pub attributes-Reported :
      (fuel : ℕ) (path : Text) (attr : FileAttributes) (w : World)
      → P w.sockets
      → StatCalls P env fuel path attr w
  unfolding stat lstat statvfs
  attributes-Reported fuel path attr w p = (
    field_of fuel _ (SshCall.sftp_stat (c_str path)) (λ a. a.attributes) w p,
    field_of fuel _ (SshCall.sftp_lstat (c_str path) attr) (λ a. a.attributes) w p,
    field_of fuel _ (SshCall.sftp_statvfs path) (λ a. a.vfs) w p,
  )
    where
      field_of :
          {A : Type 0} (fuel : ℕ) (funcname : Text) (call : SshCall) (f : SshReply → A) (w : World)
          → P w.sockets
          → Post P P
              (λ a _. Reports env call f a)
              ((rc_err_handle env fuel put_rc funcname call >>= λ a. pure (f a)) w)
      field_of fuel funcname call f w p =
          (Meets-bind _ _ (rc_err_handle-Meets r fuel _ _ _ put_rc-Keeps main)
              λ a _ (fine, (w, e)). Meets-pure (f a) (λ _ _. (w, rw (← e) fine, ap f e))).run
            w p

  -- In the main thread, with a `P` of the table that other threads keep, which spare this one: a
  -- `read` that returns delivers as many bytes, modulo 2 ^ 32, as the size that libssh2 gives to
  -- the file in some state, however few bytes the reply to the read has.
  pub file_read-Sized :
      (fuel handle : ℕ) (w : World)
      → P w.sockets
      → Post P P (λ out _. Sized env handle out) (file_read env fuel handle w)
  file_read-Sized fuel handle w p = (file_read-Meets fuel handle).run w p

  -- In the main thread, with a `P` of the table that other threads keep, which spare this one: a
  -- `next` that returns answers a reply that libssh2 has in some state: no entry for the status 0,
  -- and for another that is no error an entry with the attributes of the reply, whose two texts
  -- have 512 bytes each.
  pub dir_next-Listed :
      (fuel handle : ℕ) (w : World)
      → P w.sockets
      → Post P P (λ o _. Listed env handle o) (dir_next env fuel handle w)
  dir_next-Listed fuel handle w p = (dir_next-Meets fuel handle).run w p
