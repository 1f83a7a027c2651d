-- ===== src/Device/Linux/Ioctl/Headers.antt =====
-- The structures of the kernel's headers (route.h and ipv6_route.h), whose `unsigned long` and pointers
-- have the size of a word, beside those of device/device_linux_64.go and device_linux_32.go.
use Prim.Native.String.{String}
use an_app.Base.{ℕ, ◌+◌, ◌≡◌, refl, ap₂, ◌∙◌, List, [], ◌∷◌, ◌++◌, All}
use an_app.Device.Linux.Ioctl.Memory.{Bytes, Field, gap, store, slice, Sized, stored, slice_both}
use an_app.Device.Linux.Ioctl.Layout.{rtentry_64, rtentry_32, in6_rtmsg_64, in6_rtmsg_32}

-- A field of the kernel's structure with the Go fields that hold its bytes.
pub record KernelField : Type 0 where
  pub parts : List String
  pub align : ℕ
  pub size : ℕ

-- unsigned short and short, a field of four bytes, unsigned long and pointers, struct sockaddr, and
-- struct in6_addr, which is aligned as its 32-bit words.
abbrev short : String → KernelField
short name = record { parts = name ∷ []; align = 2; size = 2 }

abbrev int : String → KernelField
int name = record { parts = name ∷ []; align = 4; size = 4 }

abbrev long : ℕ → List String → KernelField
long w parts = record { parts = parts; align = w; size = w }

abbrev socket_address : String → KernelField
socket_address name = record { parts = name ∷ []; align = 2; size = 16 }

abbrev address6 : String → KernelField
address6 name = record { parts = name ∷ []; align = 4; size = 16 }

abbrev pub kernel_offsets : ℕ → List KernelField → List (KernelField × ℕ)
kernel_offsets pos [] = []
kernel_offsets pos (f ∷ fs) =
    (f, pos + gap pos f.align) ∷ kernel_offsets (pos + gap pos f.align + f.size) fs

abbrev pub joined : (String → Bytes) → List String → Bytes
joined v [] = []
joined v (name ∷ []) = v name
joined v (name ∷ more ∷ names) = v name ++ joined v (more ∷ names)

-- The kernel finds in its fields what Go has written.
abbrev pub Found : (String → Bytes) → List Field → List KernelField → Type 0
Found v fields kernel =
    All (λ p. slice p.1 p.0.size (store 0 fields v) ≡ joined v p.0.parts) (kernel_offsets 0 kernel)

-- The parts of the fields that are an unsigned long.
pub record Parts : Type 0 where
  pub rt_pad1 : List String
  pub rt_pad3 : List String
  pub rt_mtu : List String
  pub rt_window : List String
  pub rtmsg_info : List String

-- struct rtentry and struct in6_rtmsg, where a word has w bytes.
abbrev pub kernel_rtentry : ℕ → Parts → List KernelField
kernel_rtentry w of =
    long w of.rt_pad1
    ∷ socket_address "rt_dst"
    ∷ socket_address "rt_gateway"
    ∷ socket_address "rt_genmask"
    ∷ short "rt_flags"
    ∷ short "rt_pad2"
    ∷ long w of.rt_pad3
    ∷ long w ("rt_pad4" ∷ [])
    ∷ short "rt_metric"
    ∷ long w ("rt_dev" ∷ [])
    ∷ long w of.rt_mtu
    ∷ long w of.rt_window
    ∷ short "rt_irtt"
    ∷ []

abbrev pub kernel_in6_rtmsg : ℕ → Parts → List KernelField
kernel_in6_rtmsg w of =
    address6 "rtmsg_dst"
    ∷ address6 "rtmsg_src"
    ∷ address6 "rtmsg_gateway"
    ∷ int "rtmsg_type"
    ∷ short "rtmsg_dst_len"
    ∷ short "rtmsg_src_len"
    ∷ int "rtmsg_metric"
    ∷ long w of.rtmsg_info
    ∷ int "rtmsg_flags"
    ∷ int "rtmsg_ifindex"
    ∷ []

abbrev pub one_part : Parts
one_part = record {
  rt_pad1 = "rt_pad1" ∷ [];
  rt_pad3 = "rt_pad3" ∷ [];
  rt_mtu = "rt_mtu" ∷ [];
  rt_window = "rt_window" ∷ [];
  rtmsg_info = "rtmsg_info" ∷ [];
}

abbrev pub two_parts : Parts
two_parts = record {
  rt_pad1 = "rt_pad1" ∷ "rt_pad1_high" ∷ [];
  rt_pad3 = "rt_pad3" ∷ "rt_pad3_high" ∷ [];
  rt_mtu = "rt_mtu" ∷ "rt_mtu_high" ∷ [];
  rt_window = "rt_window" ∷ "rt_window_high" ∷ [];
  rtmsg_info = "rtmsg_info" ∷ "rtmsg_info_high" ∷ [];
}

-- On 32-bit machines the kernel finds every field of both structures where Go has written it.
pub routes_reach_kernel_32 :
    (v : String → Bytes)
    → Sized v rtentry_32
    → Sized v in6_rtmsg_32
    → Found v rtentry_32 (kernel_rtentry 4 one_part)
      × Found v in6_rtmsg_32 (kernel_in6_rtmsg 4 one_part)
unfolding rtentry_32 in6_rtmsg_32
routes_reach_kernel_32 v s s6 =
    (stored v rtentry_32 0 [] refl s, stored v in6_rtmsg_32 0 [] refl s6)

both :
    (off : ℕ) (b x y : Bytes) → slice off 4 b ≡ x → slice (off + 4) 4 b ≡ y → slice off 8 b ≡ x ++ y
both off b x y h k = slice_both off 4 4 b ∙ ap₂ (λ s t. s ++ t) h k

-- On 64-bit machines the kernel finds every field of both structures where Go has written it, nothing
-- being shifted: an unsigned long is a Go field of four bytes and the blank one behind it. Each field
-- is given with as many bytes as it has.
pub routes_reach_kernel_64 :
    (v : String → Bytes)
    → Sized v rtentry_64
    → Sized v in6_rtmsg_64
    → Found v rtentry_64 (kernel_rtentry 8 two_parts)
      × Found v in6_rtmsg_64 (kernel_in6_rtmsg 8 two_parts)
unfolding rtentry_64 in6_rtmsg_64
routes_reach_kernel_64 v s s6 =
    let (
      pad1,
      (
        pad1_high,
        (
          dst,
          (
            gateway,
            (
              genmask,
              (
                flags,
                (
                  pad2,
                  (
                    _,
                    (
                      pad3,
                      (
                        pad3_high,
                        (
                          pad4,
                          (metric, (dev, (mtu, (mtu_high, (window, (window_high, (irtt, _))))))),
                        ),
                      ),
                    ),
                  ),
                ),
              ),
            ),
          ),
        ),
      ),
    ) =
      stored v rtentry_64 0 [] refl s in
    let (
      dst6,
      (
        src6,
        (
          gateway6,
          (
            type6,
            (dst_len, (src_len, (metric6, (_, (info, (info_high, (flags6, (ifindex, _)))))))),
          ),
        ),
      ),
    ) =
      stored v in6_rtmsg_64 0 [] refl s6 in
    let b = store 0 rtentry_64 v in
    let b6 = store 0 in6_rtmsg_64 v in
    (
      (
        both 0 b _ _ pad1 pad1_high,
        (
          dst,
          (
            gateway,
            (
              genmask,
              (
                flags,
                (
                  pad2,
                  (
                    both 64 b _ _ pad3 pad3_high,
                    (
                      pad4,
                      (
                        metric,
                        (
                          dev,
                          (
                            both 96 b _ _ mtu mtu_high,
                            (both 104 b _ _ window window_high, (irtt, tt)),
                          ),
                        ),
                      ),
                    ),
                  ),
                ),
              ),
            ),
          ),
        ),
      ),
      (
        dst6,
        (
          src6,
          (
            gateway6,
            (
              type6,
              (
                dst_len,
                (src_len, (metric6, (both 64 b6 _ _ info info_high, (flags6, (ifindex, tt))))),
              ),
            ),
          ),
        ),
      ),
    )
