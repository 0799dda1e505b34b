-- ===== src/I18n/Indonesian/Part2.antt =====
-- web/src/lib/i18n/id.ts, lines 126 to 250.
use ku_crud.Base.{String, [], ◌∷◌}
use ku_crud.Base.Assoc.{Assoc}

abbrev pub indonesian_2 : Assoc String
indonesian_2 =
    ("tform.colAttrs", "Atribut / Constraint")
    ∷ ("tform.primaryKey", "Primary Key")
    ∷ ("tform.step3", "Langkah 3: Konfigurasi Kolom & Parameter Tampilan")
    ∷ ("tform.step3Desc", "Atur label tampilan, kolom kunci, dan saklar properti kolom")
    ∷ ("tform.selectTableFirst", "Pilih Tabel dahulu")
    ∷ ("tform.displayLabel", "Label Tampilan")
    ∷ ("tform.labelPh", "mis. Akun Pengguna")
    ∷ ("tform.labelHint", "Nama ini tampil di menu sidebar untuk semua pengguna")
    ∷ ("tform.description", "Deskripsi (opsional)")
    ∷ ("tform.descPh", "mis. Pesanan penjualan harian")
    ∷ (
      "tform.descHint",
      "Tampil sebagai petunjuk di menu dan di bawah judul tabel (maks 200 karakter)",
    )
    ∷ ("tform.pageSize", "Ukuran Halaman (baris per halaman)")
    ∷ ("tform.sortCol", "Kolom Urut Default")
    ∷ ("tform.noneKey", "Tidak ada (kolom kunci)")
    ∷ ("tform.sortDir", "Arah Urut Default")
    ∷ ("tform.asc", "Naik (Ascending)")
    ∷ ("tform.desc", "Turun (Descending)")
    ∷ ("tform.needKey", "Pilih Minimal Satu Kolom Kunci")
    ∷ ("tform.computedCol", "Kolom Komputasi")
    ∷ ("tform.sqlLabel", "Query SQL")
    ∷ ("tform.queryLabelDefault", "Tampilan query")
    ∷ ("tf.hooks.title", "Hook Otomatisasi")
    ∷ (
      "tf.hooks.hint",
      "Hook adalah fungsi Go yang di-compile ke dalam server. Pasang pada event tabel; before-hook dapat mengubah atau menolak penulisan data.",
    )
    ∷ (
      "tf.hooks.help",
      "Hook adalah fungsi Go yang ditulis di folder hooks/ dan di-compile ke dalam server (tambahkan fungsi, build ulang, lalu muncul di dropdown). Di sini Anda memilih hook mana yang dijalankan pada setiap event tabel. Before-hook berjalan sinkron sebelum data disimpan: bisa mengubah nilai atau menolak penulisan. After-hook berjalan di belakang setelah data ter-commit — pantau di halaman Outbox Hook.",
    )
    ∷ (
      "tf.hooks.none",
      "Tidak ada hook yang ter-compile di server ini. Tambahkan fungsi di hooks/ lalu build ulang.",
    )
    ∷ ("tf.hooks.add", "Tambah hook")
    ∷ ("tf.hooks.config", "Config (JSON)")
    ∷ (
      "tf.hooks.configHelp",
      "Pengaturan JSON opsional yang diteruskan ke hook ini. Kosongkan jika hook tidak membutuhkannya. Contoh: {\"decimals\": 2} membuat contoh bawaan NormalizePrice membulatkan ke 2 desimal. Nilai ini dibaca sesuai definisi pembuat hook; JSON yang tidak valid akan ditandai saat Anda meninggalkan kolom.",
    )
    ∷ ("tf.hooks.configInvalid", "Config bukan JSON yang valid")
    ∷ ("tf.hooks.remove", "Hapus")
    ∷ ("tf.hooks.event.beforeCreate", "Sebelum create")
    ∷ ("tf.hooks.event.afterCreate", "Sesudah create")
    ∷ ("tf.hooks.event.beforeUpdate", "Sebelum update")
    ∷ ("tf.hooks.event.afterUpdate", "Sesudah update")
    ∷ ("tf.hooks.event.beforeDelete", "Sebelum delete")
    ∷ ("tf.hooks.event.afterDelete", "Sesudah delete")
    ∷ (
      "tf.hooks.eventHelp.beforeCreate",
      "Berjalan sebelum row baru disisipkan (form dan import CSV). Dapat mengubah atau menolak nilai baru.",
    )
    ∷ (
      "tf.hooks.eventHelp.afterCreate",
      "Berjalan di belakang setelah row baru ter-commit. Untuk side effect seperti notifikasi atau penulisan turunan.",
    )
    ∷ (
      "tf.hooks.eventHelp.beforeUpdate",
      "Berjalan sebelum row diupdate (form, import CSV dan drag kanban). Dapat mengubah atau menolak nilai baru.",
    )
    ∷ ("tf.hooks.eventHelp.afterUpdate", "Berjalan di belakang setelah update row ter-commit.")
    ∷ (
      "tf.hooks.eventHelp.beforeDelete",
      "Berjalan sebelum row dihapus (satu maupun massal). Hanya bisa menolak penghapusan, tidak mengubah nilai.",
    )
    ∷ ("tf.hooks.eventHelp.afterDelete", "Berjalan di belakang setelah penghapusan row ter-commit.")
    ∷ ("tf.actions.title", "Aksi")
    ∷ (
      "tf.actions.hint",
      "Pilih aksi bawaan grid mana yang tampil, dan tambahkan tombol aksi baris custom yang menjalankan hook ter-compile.",
    )
    ∷ (
      "tf.actions.help",
      "Saklar hanya menyembunyikan tombol — grant user tetap menentukan yang diizinkan. Aksi custom menjalankan hook-nya secara sinkron saat diklik, menampilkan pesan hook, dan tercatat di audit trail.",
    )
    ∷ ("tf.actions.builtin", "Aksi bawaan")
    ∷ (
      "tf.actions.builtinHint",
      "Tombol yang disembunyikan hanya berlaku pada grid tabel ini; permission tidak berubah.",
    )
    ∷ ("tf.actions.builtin.newRow", "Baris baru")
    ∷ ("tf.actions.builtin.edit", "Edit baris")
    ∷ ("tf.actions.builtin.delete", "Hapus baris")
    ∷ ("tf.actions.builtin.copy", "Duplikat baris")
    ∷ ("tf.actions.builtin.import", "Impor CSV")
    ∷ ("tf.actions.builtin.export", "Ekspor CSV")
    ∷ ("tf.actions.builtin.refresh", "Segarkan")
    ∷ ("tf.actions.custom", "Aksi baris custom")
    ∷ (
      "tf.actions.customHint",
      "Belum ada aksi custom. Tambahkan untuk menjalankan hook dari tombol baris.",
    )
    ∷ ("tf.actions.add", "Tambah aksi")
    ∷ ("tf.actions.label", "Label")
    ∷ ("tf.actions.hook", "Hook")
    ∷ ("tf.actions.grant", "Grant yang dibutuhkan")
    ∷ (
      "tf.actions.grantHelp",
      "Tombol hanya tampil untuk user yang memiliki grant ini pada tabel (API juga menegakkannya).",
    )
    ∷ ("tf.actions.grant.read", "Baca")
    ∷ ("tf.actions.grant.create", "Buat")
    ∷ ("tf.actions.grant.update", "Ubah")
    ∷ ("tf.actions.grant.delete", "Hapus")
    ∷ ("tf.actions.style", "Gaya")
    ∷ ("tf.actions.style.neutral", "Netral")
    ∷ ("tf.actions.style.primary", "Utama")
    ∷ ("tf.actions.style.danger", "Berbahaya")
    ∷ ("tf.actions.confirm", "Teks konfirmasi (opsional)")
    ∷ ("tf.actions.confirmPh", "Tanyakan sebelum menjalankan…")
    ∷ ("tf.actions.up", "Naik")
    ∷ ("tf.actions.down", "Turun")
    ∷ ("docs.hooks.title", "Hook (otomasi)")
    ∷ (
      "docs.hooks.what",
      "Hook adalah fungsi Go yang dikompilasi ke dalam server (direktori hooks/) dan ditugaskan ke event tabel di editor definisi. Hook berjalan dengan signature HookFunc (ctx, *HookContext, event, payload baris, config) dan menerima user yang bertindak, definisi tabel, semua datasource, metadata store, dan logger.",
    )
    ∷ (
      "docs.hooks.events",
      "Enam event: sebelum/sesudah × buat/ubah/hapus. Tugaskan hook sebanyak apa pun per event; setiap penugasan punya config JSON sendiri dan urutan eksekusi (angka kecil lebih dulu).",
    )
    ∷ (
      "docs.hooks.before",
      "Hook before berjalan sinkron di dalam proses tulis: boleh mengubah nilai payload atau menolak tulisan dengan error (HTTP 400 HOOK_REJECTED).",
    )
    ∷ (
      "docs.hooks.after",
      "Hook after berjalan asinkron di worker latar belakang — hanya untuk efek samping (notifikasi, menulis data turunan ke tempat lain); hasilnya tidak bisa mengubah tulisan yang sudah selesai.",
    )
    ∷ (
      "docs.hooks.outbox",
      "Pemanggilan hook after dicatat di outbox SQLite yang tahan lama dan dicoba ulang dengan backoff (30 dtk, 2 mnt, 10 mnt, 1 jam, 4 jam — lalu dead). Pantau entri pending dan dead, dan coba ulang yang dead, di halaman Hook Outbox.",
    )
    ∷ (
      "docs.hooks.devflow",
      "Alur pengembangan: tambahkan fungsi di hooks/ → jalankan make dev atau make build (meregenerasi hooks/registry_gen.go) → hook muncul di editor definisi.",
    )
    ∷ (
      "docs.hooks.rename",
      "Mengganti nama fungsi mendaftarkan hook baru — penugasan ke nama lama tetap menunjuk nama lama.",
    )
    ∷ (
      "docs.hooks.missing",
      "Definisi yang menunjuk hook yang tidak ada di binary menolak tulisan dengan HOOK_MISSING. Hook berjalan dari semua jalur tulis: form, impor CSV, hapus massal, seret kanban, dan perubahan tautan m2m.",
    )
    ∷ ("docs.actions.title", "Kustomisasi aksi tabel")
    ∷ (
      "docs.actions.hide",
      "Di editor definisi Anda dapat menyembunyikan tombol grid bawaan mana pun — baris baru, edit, hapus, duplikat, impor, ekspor, segarkan — per tabel. Menyembunyikan hanya presentasi: grant user tetap menentukan siapa yang boleh melakukan apa.",
    )
    ∷ (
      "docs.actions.custom",
      "Aksi baris custom menambahkan tombol yang menjalankan hook Go ter-compile saat diklik (event onAction; hook mengisi Message yang ditampilkan sebagai notifikasi). Hook berjalan sinkron (batas 15 detik), grid dimuat ulang, dan setiap eksekusi — sukses maupun gagal — masuk ke audit trail. Setiap aksi menyatakan grant yang dibutuhkan sebelum tombolnya tampil; query view tidak dapat mendefinisikan aksi custom.",
    )
    ∷ ("view.title", "Pengaturan Tampilan (Grid / Kanban / Kalender)")
    ∷ ("view.desc", "Atur tampilan default serta cara kanban & kalender memakai data")
    ∷ ("view.default", "Tampilan Default")
    ∷ (
      "view.defaultHelp",
      "Pilih mode tampilan awal yang ditampilkan saat halaman data tabel ini dibuka.",
    )
    ∷ ("view.grid", "Grid (tabel data)")
    ∷ ("view.kanban", "Papan kanban")
    ∷ ("view.calendar", "Kalender")
    ∷ ("view.boardCol", "Kolom Papan Kanban")
    ∷ ("view.noneKanban", "Tidak ada (kanban disembunyikan)")
    ∷ ("view.boardColHint", "Kolom enum; setiap nilainya menjadi kolom papan.")
    ∷ ("view.cardTitle", "Judul Kartu Kanban")
    ∷ (
      "view.cardTitleHelp",
      "Pilih kolom yang dijadikan sebagai teks judul utama pada kartu Kanban.",
    )
    ∷ ("view.startCol", "Kolom Mulai Kalender")
    ∷ (
      "view.startColHelp",
      "Pilih kolom tanggal/waktu yang menentukan letak tanggal peristiwa pada kalender.",
    )
    ∷ ("view.noneCalendar", "Tidak ada (kalender disembunyikan)")
    ∷ ("view.endCol", "Kolom Selesai Kalender (opsional)")
    ∷ (
      "view.endColHelp",
      "Pilih kolom tanggal/waktu opsional untuk rentang waktu peristiwa beberapa hari.",
    )
    ∷ ("view.noneEnd", "Tidak ada (peristiwa satu hari)")
    ∷ (
      "view.hint",
      "Pengguna bisnis dapat berganti tampilan di halaman data; pilihan Anda di sini menjadi default mereka.",
    )
    ∷ ("col.inspecting", "Menginspeksi kolom tabel live...")
    ∷ ("col.noMappings", "Belum ada pemetaan kolom")
    ∷ ("col.listTitle", "Daftar Konfigurasi Kolom ({count} kolom)")
    ∷ ("col.guideTitle", "Panduan Konfigurasi Kolom")
    ∷ (
      "col.guide1",
      "Konfigurasikan properti tampilan dan perilaku setiap kolom basis data yang dipetakan ke Ku-CRUD.",
    )
    ∷ (
      "col.guide2",
      "Setiap kolom dapat diatur Label Tampilan, status Primary Key, tipe field UI, dan saklar fitur (Editable, Required, Visible, Searchable, Sortable).",
    )
    ∷ ("col.clickSettings", "Klik ikon pengaturan untuk mengonfigurasi relasi Enum / Foreign Key")
    ∷ ("col.addComputed", "Tambah Kolom Komputasi")
    ∷ ("col.useAsKey", "Jadikan Primary / Composite Key")
    ∷ ("col.keyTitle", "Composite Key & Logika Query")
    ∷ ("col.keyTerm", "Primary / Composite Key")
    ∷ ("col.keyDesc", "menjadi pengenal unik suatu rekaman.")
    ∷ ("col.keyBackendLabel", "Logika Backend:")
    ∷ (
      "col.keyBackendDesc",
      "Nilai kolom kunci dipakai pada klausa WHERE untuk query UPDATE dan DELETE.",
    )
    ∷ (
      "col.keyGuide3",
      "Centang beberapa kolom bila tabel memakai Composite Key (mis. dept_id + emp_id).",
    )
    ∷ []
