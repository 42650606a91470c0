-- ===== src/Cksum/Tables/Row4.antt =====
-- Client/cksum_new.cpp: row 4 of `crctab`.
use secure_file_transfer_sys.Base.{ℕ, List, [], ◌∷◌}

unfoldable pub crctab_4 : List ℕ
crctab_4 =
    0x00000000 ∷ 0x490d678d ∷ 0x921acf1a ∷ 0xdb17a897 ∷ 0x20f48383 ∷ 0x69f9e40e ∷ 0xb2ee4c99
    ∷ 0xfbe32b14 ∷ 0x41e90706 ∷ 0x08e4608b ∷ 0xd3f3c81c ∷ 0x9afeaf91 ∷ 0x611d8485 ∷ 0x2810e308
    ∷ 0xf3074b9f ∷ 0xba0a2c12 ∷ 0x83d20e0c ∷ 0xcadf6981 ∷ 0x11c8c116 ∷ 0x58c5a69b ∷ 0xa3268d8f
    ∷ 0xea2bea02 ∷ 0x313c4295 ∷ 0x78312518 ∷ 0xc23b090a ∷ 0x8b366e87 ∷ 0x5021c610 ∷ 0x192ca19d
    ∷ 0xe2cf8a89 ∷ 0xabc2ed04 ∷ 0x70d54593 ∷ 0x39d8221e ∷ 0x036501af ∷ 0x4a686622 ∷ 0x917fceb5
    ∷ 0xd872a938 ∷ 0x2391822c ∷ 0x6a9ce5a1 ∷ 0xb18b4d36 ∷ 0xf8862abb ∷ 0x428c06a9 ∷ 0x0b816124
    ∷ 0xd096c9b3 ∷ 0x999bae3e ∷ 0x6278852a ∷ 0x2b75e2a7 ∷ 0xf0624a30 ∷ 0xb96f2dbd ∷ 0x80b70fa3
    ∷ 0xc9ba682e ∷ 0x12adc0b9 ∷ 0x5ba0a734 ∷ 0xa0438c20 ∷ 0xe94eebad ∷ 0x3259433a ∷ 0x7b5424b7
    ∷ 0xc15e08a5 ∷ 0x88536f28 ∷ 0x5344c7bf ∷ 0x1a49a032 ∷ 0xe1aa8b26 ∷ 0xa8a7ecab ∷ 0x73b0443c
    ∷ 0x3abd23b1 ∷ 0x06ca035e ∷ 0x4fc764d3 ∷ 0x94d0cc44 ∷ 0xddddabc9 ∷ 0x263e80dd ∷ 0x6f33e750
    ∷ 0xb4244fc7 ∷ 0xfd29284a ∷ 0x47230458 ∷ 0x0e2e63d5 ∷ 0xd539cb42 ∷ 0x9c34accf ∷ 0x67d787db
    ∷ 0x2edae056 ∷ 0xf5cd48c1 ∷ 0xbcc02f4c ∷ 0x85180d52 ∷ 0xcc156adf ∷ 0x1702c248 ∷ 0x5e0fa5c5
    ∷ 0xa5ec8ed1 ∷ 0xece1e95c ∷ 0x37f641cb ∷ 0x7efb2646 ∷ 0xc4f10a54 ∷ 0x8dfc6dd9 ∷ 0x56ebc54e
    ∷ 0x1fe6a2c3 ∷ 0xe40589d7 ∷ 0xad08ee5a ∷ 0x761f46cd ∷ 0x3f122140 ∷ 0x05af02f1 ∷ 0x4ca2657c
    ∷ 0x97b5cdeb ∷ 0xdeb8aa66 ∷ 0x255b8172 ∷ 0x6c56e6ff ∷ 0xb7414e68 ∷ 0xfe4c29e5 ∷ 0x444605f7
    ∷ 0x0d4b627a ∷ 0xd65ccaed ∷ 0x9f51ad60 ∷ 0x64b28674 ∷ 0x2dbfe1f9 ∷ 0xf6a8496e ∷ 0xbfa52ee3
    ∷ 0x867d0cfd ∷ 0xcf706b70 ∷ 0x1467c3e7 ∷ 0x5d6aa46a ∷ 0xa6898f7e ∷ 0xef84e8f3 ∷ 0x34934064
    ∷ 0x7d9e27e9 ∷ 0xc7940bfb ∷ 0x8e996c76 ∷ 0x558ec4e1 ∷ 0x1c83a36c ∷ 0xe7608878 ∷ 0xae6deff5
    ∷ 0x757a4762 ∷ 0x3c7720ef ∷ 0x0d9406bc ∷ 0x44996131 ∷ 0x9f8ec9a6 ∷ 0xd683ae2b ∷ 0x2d60853f
    ∷ 0x646de2b2 ∷ 0xbf7a4a25 ∷ 0xf6772da8 ∷ 0x4c7d01ba ∷ 0x05706637 ∷ 0xde67cea0 ∷ 0x976aa92d
    ∷ 0x6c898239 ∷ 0x2584e5b4 ∷ 0xfe934d23 ∷ 0xb79e2aae ∷ 0x8e4608b0 ∷ 0xc74b6f3d ∷ 0x1c5cc7aa
    ∷ 0x5551a027 ∷ 0xaeb28b33 ∷ 0xe7bfecbe ∷ 0x3ca84429 ∷ 0x75a523a4 ∷ 0xcfaf0fb6 ∷ 0x86a2683b
    ∷ 0x5db5c0ac ∷ 0x14b8a721 ∷ 0xef5b8c35 ∷ 0xa656ebb8 ∷ 0x7d41432f ∷ 0x344c24a2 ∷ 0x0ef10713
    ∷ 0x47fc609e ∷ 0x9cebc809 ∷ 0xd5e6af84 ∷ 0x2e058490 ∷ 0x6708e31d ∷ 0xbc1f4b8a ∷ 0xf5122c07
    ∷ 0x4f180015 ∷ 0x06156798 ∷ 0xdd02cf0f ∷ 0x940fa882 ∷ 0x6fec8396 ∷ 0x26e1e41b ∷ 0xfdf64c8c
    ∷ 0xb4fb2b01 ∷ 0x8d23091f ∷ 0xc42e6e92 ∷ 0x1f39c605 ∷ 0x5634a188 ∷ 0xadd78a9c ∷ 0xe4daed11
    ∷ 0x3fcd4586 ∷ 0x76c0220b ∷ 0xccca0e19 ∷ 0x85c76994 ∷ 0x5ed0c103 ∷ 0x17dda68e ∷ 0xec3e8d9a
    ∷ 0xa533ea17 ∷ 0x7e244280 ∷ 0x3729250d ∷ 0x0b5e05e2 ∷ 0x4253626f ∷ 0x9944caf8 ∷ 0xd049ad75
    ∷ 0x2baa8661 ∷ 0x62a7e1ec ∷ 0xb9b0497b ∷ 0xf0bd2ef6 ∷ 0x4ab702e4 ∷ 0x03ba6569 ∷ 0xd8adcdfe
    ∷ 0x91a0aa73 ∷ 0x6a438167 ∷ 0x234ee6ea ∷ 0xf8594e7d ∷ 0xb15429f0 ∷ 0x888c0bee ∷ 0xc1816c63
    ∷ 0x1a96c4f4 ∷ 0x539ba379 ∷ 0xa878886d ∷ 0xe175efe0 ∷ 0x3a624777 ∷ 0x736f20fa ∷ 0xc9650ce8
    ∷ 0x80686b65 ∷ 0x5b7fc3f2 ∷ 0x1272a47f ∷ 0xe9918f6b ∷ 0xa09ce8e6 ∷ 0x7b8b4071 ∷ 0x328627fc
    ∷ 0x083b044d ∷ 0x413663c0 ∷ 0x9a21cb57 ∷ 0xd32cacda ∷ 0x28cf87ce ∷ 0x61c2e043 ∷ 0xbad548d4
    ∷ 0xf3d82f59 ∷ 0x49d2034b ∷ 0x00df64c6 ∷ 0xdbc8cc51 ∷ 0x92c5abdc ∷ 0x692680c8 ∷ 0x202be745
    ∷ 0xfb3c4fd2 ∷ 0xb231285f ∷ 0x8be90a41 ∷ 0xc2e46dcc ∷ 0x19f3c55b ∷ 0x50fea2d6 ∷ 0xab1d89c2
    ∷ 0xe210ee4f ∷ 0x390746d8 ∷ 0x700a2155 ∷ 0xca000d47 ∷ 0x830d6aca ∷ 0x581ac25d ∷ 0x1117a5d0
    ∷ 0xeaf48ec4 ∷ 0xa3f9e949 ∷ 0x78ee41de ∷ 0x31e32653 ∷ []
