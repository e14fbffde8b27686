-- ===== src/Clipboard/Bounded.antt =====
-- kvm-daemon/src/service.rs: how much a receiver buffers, whatever messages arrive.
use thekvm.Prelude.{ℕ, ◌≤◌, ◌≡◌, refl, ◌||◌, ltb, ◌==◌, either, arith, Bool-cases, inl, inr}
use thekvm.Prelude.Text.{Text, byte_length}
use thekvm.Wire.Message.{
  WireMessage, clipboard_text, clipboard_start, clipboard_chunk, clipboard_end, clipboard_image,
  clipboard_image_start, clipboard_image_chunk, clipboard_image_end,
}
use thekvm.Clipboard.{
  ClipboardAssembly, ClipboardFeed, dropped, pending, ready, closed, feed_start, feed_chunk,
  feed_end,
}
use thekvm.Clipboard.Image.{
  ImageAssembly, ImageFeed, image_dropped, image_pending, image_ready, image_closed,
  feed_image_start, feed_image_chunk, feed_image_end,
}
use thekvm.Clipboard.Receiver.{
  Receiver, receive, end_text, end_image, apply_inbound_clipboard, apply_inbound_clipboard_image,
  stash_inbound_clipboard, is_current,
}
use thekvm.Clipboard.Cutting.{byte_length-append}

-- The buffer has the received bytes, within the announced total, within the cap.
abbrev pub IsHeld : ℕ → Text → ℕ → ℕ → Type 0
IsHeld limit buffer received total =
    (byte_length buffer ≡ received) × (received ≤ total) × (total ≤ limit)

abbrev pub IsTextHeld : ℕ → ClipboardAssembly → Type 0
IsTextHeld limit a = IsHeld limit a.buffer a.received_bytes a.total_bytes

abbrev pub IsImageHeld : ℕ → ImageAssembly → Type 0
IsImageHeld limit a = IsHeld limit a.buffer a.received_bytes a.total_bytes

abbrev pub IsCapped : Receiver → Type 0
IsCapped r =
    IsTextHeld r.clipboard_max_bytes r.text_assembly
    × IsImageHeld r.clipboard_max_bytes r.image_assembly

closed_held : (limit : ℕ) → IsTextHeld limit closed
unfolding byte_length
closed_held limit = (refl, omega arith, omega arith)

image_closed_held : (limit : ℕ) → IsImageHeld limit image_closed
unfolding byte_length
image_closed_held limit = (refl, omega arith, omega arith)

start_held :
    (a : ClipboardAssembly) (revision total count limit : ℕ)
    → IsTextHeld limit (feed_start a revision total count limit).0
unfolding feed_start byte_length
start_held a revision total count limit =
    elim (Bool-cases (total == 0 || ltb limit total || count == 0)) [
      | inl e ↦ rw e (closed_held limit)
      | inr e ↦ rw e (refl, omega arith, ground arith)
    ]

chunk_held :
    (a : ClipboardAssembly) (revision index limit : ℕ) (bytes : Text)
    → IsTextHeld limit a
    → IsTextHeld limit (feed_chunk a revision index bytes).0
unfolding feed_chunk
chunk_held a revision index limit bytes (e, l, c) =
    either (λ (r : ClipboardAssembly × ClipboardFeed). IsTextHeld limit r.0) _ (closed, dropped) _
      (λ t. closed_held limit)
      (λ t. (omega (arith, byte_length-append a.buffer bytes), ground arith, c))

end_held : (a : ClipboardAssembly) (revision limit : ℕ) → IsTextHeld limit (feed_end a revision).0
unfolding feed_end
end_held a revision limit =
    either (λ (r : ClipboardAssembly × ClipboardFeed). IsTextHeld limit r.0) _ (closed, dropped) _
      (λ t. closed_held limit) (λ t. closed_held limit)

image_start_held :
    (a : ImageAssembly) (revision total count width height limit : ℕ)
    → IsImageHeld limit (feed_image_start a revision total count width height limit).0
unfolding feed_image_start byte_length
image_start_held a revision total count width height limit =
    elim (Bool-cases (
      total == 0
      || ltb limit total
      || count == 0
      || width == 0
      || height == 0
      || ltb 16384 width
      || ltb 16384 height)) [
        | inl e ↦ rw e (image_closed_held limit)
        | inr e ↦ rw e (refl, omega arith, ground arith)
      ]

image_chunk_held :
    (a : ImageAssembly) (revision index limit : ℕ) (bytes : Text)
    → IsImageHeld limit a
    → IsImageHeld limit (feed_image_chunk a revision index bytes).0
unfolding feed_image_chunk
image_chunk_held a revision index limit bytes (e, l, c) =
    either (λ (r : ImageAssembly × ImageFeed). IsImageHeld limit r.0) _
      (image_closed, image_dropped) _ (λ t. image_closed_held limit)
      (λ t. (omega (arith, byte_length-append a.buffer bytes), ground arith, c))

image_end_held :
    (a : ImageAssembly) (revision limit : ℕ) → IsImageHeld limit (feed_image_end a revision).0
unfolding feed_image_end
image_end_held a revision limit =
    either (λ (r : ImageAssembly × ImageFeed). IsImageHeld limit r.0) _
      (image_closed, image_dropped) _ (λ t. image_closed_held limit) (λ t. image_closed_held limit)

end_text-IsCapped :
    (r : Receiver) (revision : ℕ) (a : ClipboardAssembly) (feed : ClipboardFeed)
    → IsCapped r
    → IsTextHeld r.clipboard_max_bytes a
    → IsCapped (end_text r revision (a, feed))
unfolding end_text apply_inbound_clipboard stash_inbound_clipboard
end_text-IsCapped r revision a dropped (h, k) n = (n, k)
end_text-IsCapped r revision a pending (h, k) n = (n, k)
end_text-IsCapped r revision a (ready text) (h, k) n = (n, k)

end_image-IsCapped :
    (r : Receiver) (revision : ℕ) (a : ImageAssembly) (feed : ImageFeed)
    → IsCapped r
    → IsImageHeld r.clipboard_max_bytes a
    → IsCapped (end_image r revision (a, feed))
unfolding end_image apply_inbound_clipboard_image stash_inbound_clipboard
end_image-IsCapped r revision a image_dropped (h, k) n = (h, n)
end_image-IsCapped r revision a image_pending (h, k) n = (h, n)
end_image-IsCapped r revision a (image_ready paste) (h, k) n = (h, n)

-- Whatever messages arrive, a receiver never buffers more than its cap: the bytes in the buffer of
-- each open transfer are those counted, at most the announced total, which is at most the cap.
pub receive-IsCapped : (r : Receiver) (m : WireMessage) → IsCapped r → IsCapped (receive r m)
unfolding receive apply_inbound_clipboard apply_inbound_clipboard_image stash_inbound_clipboard
receive-IsCapped r (clipboard_text revision text) h =
    either IsCapped _ (apply_inbound_clipboard r revision text) r (λ e. h) (λ e. h)
receive-IsCapped r (clipboard_start revision total count) h =
    either IsCapped (is_current r revision) _ r
      (λ e. (start_held r.text_assembly revision total count r.clipboard_max_bytes, h.1)) (λ e. h)
receive-IsCapped r (clipboard_chunk revision index bytes) h =
    either IsCapped (is_current r revision) _ r
      (λ e. (chunk_held r.text_assembly revision index r.clipboard_max_bytes bytes h.0, h.1))
      (λ e. h)
receive-IsCapped r (clipboard_end revision) h =
    either IsCapped (is_current r revision) _ r
      (λ e.
        end_text-IsCapped r revision (feed_end r.text_assembly revision).0
          (feed_end r.text_assembly revision).1 h
          (end_held r.text_assembly revision r.clipboard_max_bytes))
      (λ e. h)
receive-IsCapped r (clipboard_image i) h =
    either IsCapped _ (apply_inbound_clipboard_image r i.revision _) r (λ e. h) (λ e. h)
receive-IsCapped r (clipboard_image_start s) h =
    either IsCapped (is_current r s.revision) _ r
      (λ e. (
        h.0,
        image_start_held r.image_assembly s.revision s.total_bytes s.chunks s.width s.height
            r.clipboard_max_bytes,
      ))
      (λ e. h)
receive-IsCapped r (clipboard_image_chunk revision index bytes) h =
    either IsCapped (is_current r revision) _ r
      (λ e. (h.0, image_chunk_held r.image_assembly revision index r.clipboard_max_bytes bytes h.1))
      (λ e. h)
receive-IsCapped r (clipboard_image_end revision) h =
    either IsCapped (is_current r revision) _ r
      (λ e.
        end_image-IsCapped r revision (feed_image_end r.image_assembly revision).0
          (feed_image_end r.image_assembly revision).1 h
          (image_end_held r.image_assembly revision r.clipboard_max_bytes))
      (λ e. h)
receive-IsCapped r _ h = h
